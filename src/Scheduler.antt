-- ===== src/Scheduler.antt =====
-- ise_exporter/scheduler.py: the collection scheduler.
pub mod Deadline
pub mod Queue
pub mod Run
pub mod Startup
pub mod Plans
pub mod Lane
mod Examples
