-- ===== src/Cron.antt =====
-- The cron parser, projects/02-distributed-task-scheduler/scheduler/cron/parser.go.
pub mod Syntax
pub mod Field
pub mod Schedule
mod Tests
