-- ===== src/Repayment.antt =====
-- Repayment plans: backend/app/repayment_plans.py.
pub mod Rows
pub mod Context
pub mod Terms
pub mod Proposal
pub mod Decision
pub mod Sync
pub mod Allocation
pub mod Lookup
pub mod Unique
pub mod View
pub mod Examples
