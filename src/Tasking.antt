-- ===== src/Tasking.antt =====
-- `kernel/tasking`: threads, wait queues, and what is built on them.
pub mod Thread
pub mod WaitQueue
pub mod Scheduler
pub mod Process
pub mod Semaphore
mod Tests
