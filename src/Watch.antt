-- ===== src/Watch.antt =====
-- pkg/watch: the scheduler of periodic crawls and its state file.
pub mod State
pub mod Due
pub mod Scheduler
pub mod Schedule
pub mod Interval
