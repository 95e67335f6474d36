-- ===== src/Scheduler.antt =====
-- projects/02-distributed-task-scheduler/scheduler: the worker pool. The cron parser is in Cron.
pub mod Pool
