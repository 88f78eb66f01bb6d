-- ===== src/Vmm.antt =====
-- memory/vmm.c: the allocator of physical page frames, and the regions of an address space.
pub mod Frames
pub mod Counts
pub mod Sound
pub mod Regions
pub mod Disjoint
pub mod Lookup
pub mod Start
pub mod Laws
mod Tests
