-- ===== src/Ipc.antt =====
-- kernel/ipc.c and kernel/ipc.h: one bounded message queue for each task.
-- Queue and Reader have the definitions, the others the invariant, the specification and the proofs.
pub mod Queue
pub mod Reader
pub mod Holds
pub mod Mailbox
pub mod Refine
pub mod Laws
mod Tests
