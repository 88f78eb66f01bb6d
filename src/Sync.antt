-- ===== src/Sync.antt =====
-- kernel/sync.c and kernel/sync.h: spinlocks, mutexes, semaphores and condition variables.
pub mod Spinlock
pub mod Mutex
pub mod Semaphore
pub mod Condition
pub mod Laws
mod Tests
