-- ===== src/GitFlow.antt =====
-- The branching workflow of projects/07-tui-gitflow-manager.
pub mod Repo
pub mod Workflow
