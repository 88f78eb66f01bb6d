-- ===== src/Fat12.antt =====
-- filesystem/fat12.c: reading files and the root directory of a FAT12 volume.
pub mod Disk
pub mod Image
pub mod Directory
pub mod Names
pub mod File
pub mod Listing
pub mod Lookup
pub mod Copy
pub mod Chain
pub mod Contents
pub mod Table
mod Tests
