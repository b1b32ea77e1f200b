-- ===== src/Ledger/Review.antt =====
-- `propose_payment_reconciliation` and `decide_payment_reconciliation` of backend/app/financial_ledger.py:
-- a receipt that was not matched is booked for a case after a second person agrees.
use luheng_fulfillops_cloud.Base.{
  ℕ, ◌+◌, ◌&&◌, Bool, true, false, not, Option, none, some, List, [], ◌∷◌, ◌++◌, ◌==◌,
  if◌then◌else◌, first, any, update, Text, text_eq, strip, upper, Result, ok, err, ◌>>=◌, ◌>>◌,
  raise_if, or_raise,
}
use luheng_fulfillops_cloud.Cases.{Decision, approve, is_known}
use luheng_fulfillops_cloud.Ledger.Rows.{
  LedgerDb, Hashes, PaymentReceipt, ReceiptStatus, accepted, matched, review_pending, rejected,
  is_matched, LedgerCode, receipt_already_matched, receipt_not_reconcilable,
  candidate_not_available, reconciliation_in_progress, reconciliation_not_pending, receipt_missing,
  reconciliation_version_conflict, maker_checker_conflict, invalid_reconciliation_decision,
  human_review_pending, reconciliation_rejected,
}
use luheng_fulfillops_cloud.Ledger.Candidates.{Candidate, payment_match_candidates}
use luheng_fulfillops_cloud.Ledger.Reconcile.{write_receipt, match_payment_receipt}
use luheng_fulfillops_cloud.Ledger.Summary.{refresh_business_metrics}
use luheng_fulfillops_cloud.Ledger.ReviewRows.{
  PaymentReconciliation, ReconciliationEvidence, ReviewDb, awaiting_review, is_approved,
  is_awaiting, reconciliation_decided, reconciliation_proposed, review_approved, review_rejected,
}

-- `status in RECONCILABLE_RECEIPT_STATUSES`
abbrev pub is_reconcilable : ReceiptStatus → Bool
is_reconcilable accepted = false
is_reconcilable matched = false
is_reconcilable _ = true

abbrev pub is_review : ℕ → PaymentReconciliation → Bool
is_review id v = v.id == id

abbrev pub write_review :
    PaymentReconciliation → List PaymentReconciliation → List PaymentReconciliation
write_review v = update (is_review v.id) (λ _. v)

-- The row of the proposal: that of an earlier one that was rejected, or a new one.
unfoldable pub proposed_review :
    Option PaymentReconciliation
    → PaymentReceipt
    → ReconciliationEvidence
    → (digest actor_id id now : ℕ) → PaymentReconciliation
proposed_review existing receipt e digest actor_id id now = record {
  id = elim existing [ some v ↦ v.id | none ↦ id ];
  tenant_id = elim existing [ some v ↦ v.tenant_id | none ↦ receipt.tenant_id ];
  receipt_id = elim existing [ some v ↦ v.receipt_id | none ↦ receipt.id ];
  proposed_case_id = e.proposed_case_id;
  candidate_snapshot = e.candidate_snapshot;
  evidence_digest = digest;
  reason = e.reason;
  status = awaiting_review;
  version = e.version;
  proposed_by = actor_id;
  proposed_at = now;
  reviewed_by = none;
  reviewed_at = none;
  review_note = none;
  recovery_entry_id = none;
}

unfoldable pub store_review :
    Option PaymentReconciliation
    → PaymentReceipt
    → ReconciliationEvidence
    → (digest actor_id now : ℕ) → ReviewDb
    → PaymentReconciliation × ReviewDb
store_review existing receipt e digest actor_id now db =
    let v = proposed_review existing receipt e digest actor_id db.next_review_id now in
    let held : PaymentReceipt = record receipt {
      status = review_pending;
      failure_code = some human_review_pending;
      updated_at = now;
    } in
    (
      v,
      record db {
        ledger = record db.ledger { receipts = write_receipt held db.ledger.receipts };
        reviews = elim existing [
          | some _ ↦ write_review v db.reviews
          | none ↦ db.reviews ++ v ∷ []
        ];
        review_audit =
            db.review_audit
            ++ reconciliation_proposed receipt.tenant_id actor_id v.id v.version ∷ [];
        next_review_id = db.next_review_id + 1;
      },
    )

-- An earlier proposal that waits is answered if it is the same, and one that was approved ends it.
abbrev blocking_review :
    Option PaymentReconciliation
    → Text
    → Text
    → ℕ
    → Result LedgerCode (Option PaymentReconciliation)
blocking_review none case_id reason actor_id = ok none
blocking_review (some v) case_id reason actor_id =
    if is_awaiting v.status
    then (if text_eq v.proposed_case_id case_id
          && v.proposed_by == actor_id
          && text_eq v.reason reason
        then ok (some v)
        else err reconciliation_in_progress)
    else if is_approved v.status
    then err receipt_already_matched
    else ok none

abbrev next_version : Option PaymentReconciliation → ℕ
next_version none = 1
next_version (some v) = v.version + 1

unfoldable pub propose_payment_reconciliation :
    (ReconciliationEvidence → ℕ)
    → PaymentReceipt
    → Text
    → Text
    → (actor_id now : ℕ) → ReviewDb
    → Result LedgerCode (PaymentReconciliation × ReviewDb)
propose_payment_reconciliation digest_of receipt case_id reason actor_id now db = do
  raise_if (is_matched receipt.status) receipt_already_matched
  raise_if (not (is_reconcilable receipt.status)) receipt_not_reconcilable
  let case_id' = upper (strip case_id)
  let candidates = payment_match_candidates db.ledger receipt 20
  raise_if (not (any (λ (c : Candidate). text_eq c.case_id case_id') candidates))
      candidate_not_available
  let existing = first (λ (v : PaymentReconciliation). v.receipt_id == receipt.id) db.reviews
  same ← blocking_review existing case_id' (strip reason) actor_id
  let e : ReconciliationEvidence = record {
    receipt_payload_digest = receipt.payload_digest;
    receipt_signature_digest = receipt.signature_digest;
    proposed_case_id = case_id';
    candidate_snapshot = candidates;
    reason = strip reason;
    version = next_version existing;
  }
  elim same [
    | some v ↦ ok (v, db)
    | none ↦ ok (store_review existing receipt e (digest_of e) actor_id now db)
  ]

unfoldable pub decided_review :
    PaymentReconciliation → Text → (actor_id now : ℕ) → PaymentReconciliation
decided_review v note actor_id now = record v {
  reviewed_by = some actor_id;
  reviewed_at = some now;
  review_note = some (strip note);
  version = v.version + 1;
}

-- What the decision books: nothing, or the receipt for the case that was proposed.
unfoldable pub settle_reconciliation :
    Hashes
    → Decision
    → PaymentReconciliation
    → PaymentReceipt
    → (actor_id now : ℕ) → LedgerDb
    → Result LedgerCode (PaymentReconciliation × LedgerDb)
settle_reconciliation hashes approve v receipt actor_id now db = do
  (entry, db') ← match_payment_receipt hashes receipt v.proposed_case_id actor_id now db
  ok (record v { status = review_approved; recovery_entry_id = some entry.entry_id }, db')
settle_reconciliation hashes _ v receipt actor_id now db = ok (
  record v { status = review_rejected },
  record db {
    receipts =
        write_receipt
          (record receipt {
            status = rejected;
            failure_code = some reconciliation_rejected;
            updated_at = now;
          })
          db.receipts;
  },
)

unfoldable pub decide_payment_reconciliation :
    Hashes
    → PaymentReconciliation
    → Decision
    → Text
    → (expected_version actor_id now : ℕ) → ReviewDb
    → Result LedgerCode (PaymentReconciliation × ReviewDb)
decide_payment_reconciliation hashes v decision note expected_version actor_id now db = do
  raise_if (not (is_awaiting v.status)) reconciliation_not_pending
  raise_if (not (v.version == expected_version)) reconciliation_version_conflict
  raise_if (v.proposed_by == actor_id) maker_checker_conflict
  raise_if (not (is_known decision)) invalid_reconciliation_decision
  receipt ←
      or_raise
        (first (λ (r : PaymentReceipt). r.id == v.receipt_id && r.tenant_id == v.tenant_id)
          db.ledger.receipts)
        receipt_missing
  (v', ledger) ←
      settle_reconciliation hashes decision (decided_review v note actor_id now) receipt actor_id
        now db.ledger
  ok (
    v',
    record db {
      ledger = refresh_business_metrics v.tenant_id now ledger;
      reviews = write_review v' db.reviews;
      review_audit =
          db.review_audit
          ++ reconciliation_decided v.tenant_id actor_id v'.id v'.version v'.status ∷ [];
    },
  )
