-- ===== src/Kernel.antt =====
-- The kernel proper, kernel/: processes, their queues, the scheduler, signals, exit and time.
pub mod Process
pub mod Scheduler
pub mod Exit
pub mod Signal
pub mod Queue
pub mod Mktime
mod Tests
