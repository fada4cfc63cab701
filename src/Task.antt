-- ===== src/Task.antt =====
-- kernel/src/task: threads and the scheduler.
pub mod Thread
pub mod Scheduler
pub mod Signals
