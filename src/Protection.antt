-- ===== src/Protection.antt =====
-- Protection of cases: backend/app/protection_workflow.py. An incident blocks its case, and a second
-- person releases it.
pub mod Rows
pub mod Workflow
pub mod Resolution
pub mod Safety
mod Examples
