-- ===== src/Sched.antt =====
-- kernel/scheduler.c: ready queues, dispatch, sleeping tasks, waiting parents, load balancing.
pub mod Queue
pub mod State
pub mod Sleep
pub mod Dispatch
pub mod Holds
pub mod Spec
pub mod Refine
pub mod Balance
pub mod Laws
pub mod Sleeping
pub mod Target
pub mod Extremes
pub mod Balanced
pub mod Running
mod Tests
