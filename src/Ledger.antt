-- ===== src/Ledger.antt =====
-- Payments, refunds and commissions: backend/app/financial_ledger.py.
pub mod Rows
pub mod Terms
pub mod Summary
pub mod Reconcile
pub mod Booked
pub mod Signature
pub mod Signed
pub mod Webhook
pub mod Commission
pub mod Refunds
pub mod Refundable
pub mod Balance
pub mod Rates
pub mod Delivery
pub mod Duplicates
pub mod Delivered
pub mod Candidates
pub mod Review
pub mod ReviewRows
pub mod Reviewed
mod Examples
mod SignatureExamples
mod ReviewExamples
