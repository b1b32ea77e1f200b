-- ===== src/Policy.antt =====
-- Policies of asset packages: backend/app/policy_workflow.py. A proposal changes a package's policy
-- only after a second person approves it against the version that it was made for.
pub mod Rows
pub mod Workflow
pub mod Publishing
pub mod Machine
pub mod Runs
mod Examples
