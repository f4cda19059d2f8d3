-- ===== src/Scheduler.antt =====
-- internal/web/scheduler: the schedules of backups, the record of their runs, and their manager.
pub mod Table
pub mod Rows
pub mod Store
pub mod Jobs
pub mod Manager
