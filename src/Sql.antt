-- ===== src/Sql.antt =====
-- The SQL front end of projects/01-log-query-engine, engine/planner/sql.go.
pub mod Syntax
pub mod Lexer
pub mod Parser
pub mod Printer
mod Tests
