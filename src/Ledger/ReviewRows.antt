-- ===== src/Ledger/ReviewRows.antt =====
-- The table of proposals for held receipts, `PaymentReconciliation` of backend/app/models.py.
use luheng_fulfillops_cloud.Base.{ℕ, Bool, true, false, Option, List, Text}
use luheng_fulfillops_cloud.Ledger.Rows.{LedgerDb}
use luheng_fulfillops_cloud.Ledger.Candidates.{Candidate}

pub data ReviewStatus : Type 0 where
  awaiting_review review_approved review_rejected : ReviewStatus

abbrev pub is_awaiting : ReviewStatus → Bool
is_awaiting awaiting_review = true
is_awaiting _ = false

abbrev pub is_approved : ReviewStatus → Bool
is_approved review_approved = true
is_approved _ = false

pub record PaymentReconciliation : Type 0 where
  pub id : ℕ
  pub tenant_id : ℕ
  pub receipt_id : ℕ
  pub proposed_case_id : Text
  pub candidate_snapshot : List Candidate
  pub evidence_digest : ℕ
  pub reason : Text
  pub status : ReviewStatus
  pub version : ℕ
  pub proposed_by : ℕ
  pub proposed_at : ℕ
  pub reviewed_by : Option ℕ
  pub reviewed_at : Option ℕ
  pub review_note : Option Text
  pub recovery_entry_id : Option Text

-- What the digest of a proposal is taken of.
pub record ReconciliationEvidence : Type 0 where
  pub receipt_payload_digest : ℕ
  pub receipt_signature_digest : ℕ
  pub proposed_case_id : Text
  pub candidate_snapshot : List Candidate
  pub reason : Text
  pub version : ℕ

pub data ReviewAudit : Type 0 where
  reconciliation_proposed : (tenant_id actor_id review_id version : ℕ) → ReviewAudit
  reconciliation_decided : (tenant_id actor_id review_id version : ℕ) → ReviewStatus → ReviewAudit

pub record ReviewDb : Type 0 where
  pub ledger : LedgerDb
  pub reviews : List PaymentReconciliation
  pub review_audit : List ReviewAudit
  pub next_review_id : ℕ
