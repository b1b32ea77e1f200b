-- ===== src/Ledger/ReviewExamples.antt =====
-- A payment with no case, which two persons book: runs, and the theorem at them.
use luheng_fulfillops_cloud.Base.{
  ℕ, ◌*◌, ◌≡◌, refl, none, some, [], ◌∷◌, codes, ok, err, Result, day, length, text_eq, strip,
  upper, order_by,
}
use luheng_fulfillops_cloud.Cases.{approve}
use luheng_fulfillops_cloud.Repayment.Rows.{payment}
use luheng_fulfillops_cloud.Repayment.Examples.{id_hash, tables}
use luheng_fulfillops_cloud.Ledger.Rows.{
  LedgerDb, Hashes, PaymentReceipt, ReceiptStatus, LedgerCode, from_recovery, from_request,
  case_unmatched, maker_checker_conflict,
}
use luheng_fulfillops_cloud.Ledger.Candidates.{
  payment_match_candidates, original_case, candidate_of,
}
use luheng_fulfillops_cloud.Ledger.Review.{
  proposed_review, store_review, propose_payment_reconciliation, decide_payment_reconciliation,
}
use luheng_fulfillops_cloud.Ledger.ReviewRows.{
  PaymentReconciliation, ReviewDb, ReconciliationEvidence,
}

abbrev hashes : Hashes
hashes = record {
  id_digest = id_hash;
  key_digest = λ s. s;
  payload_digest = λ p. elim p [ from_recovery t a s ↦ length s | from_request t a s d ↦ length s ];
}

abbrev held : PaymentReceipt
held = record {
  id = 1;
  tenant_id = 1;
  provider = codes "bank";
  provider_event_id = codes "E1";
  event_type = payment;
  amount_cents = 300;
  occurred_at = 100 * day;
  case_id = none;
  original_provider_event_id = none;
  payload_digest = 77;
  signature_digest = 78;
  status = ReceiptStatus.unmatched;
  failure_code = some case_unmatched;
  recovery_entry_id = none;
  duplicate_count = 0;
  updated_at = 100 * day;
}

abbrev ledger : LedgerDb
ledger = record {
  plan_tables = tables;
  rules = [];
  receipts = held ∷ [];
  recoveries = [];
  commissions = [];
  metrics = [];
  ledger_audit = [];
  next_id = 2;
}

abbrev before_review : ReviewDb
before_review = record { ledger = ledger; reviews = []; review_audit = []; next_review_id = 1 }

abbrev evidence_hash : ReconciliationEvidence → ℕ
evidence_hash e = e.version

abbrev proposing : Result LedgerCode (PaymentReconciliation × ReviewDb)
proposing =
    propose_payment_reconciliation evidence_hash held (codes " c1") (codes "same name") 5
      (101 * day) before_review

abbrev empty_evidence : ReconciliationEvidence
empty_evidence = record {
  receipt_payload_digest = 0;
  receipt_signature_digest = 0;
  proposed_case_id = [];
  candidate_snapshot = [];
  reason = [];
  version = 0;
}

abbrev review_in : Result LedgerCode (PaymentReconciliation × ReviewDb) → PaymentReconciliation
review_in (ok w) = w.0
review_in (err _) = proposed_review none held empty_evidence 0 0 0 0

abbrev tables_in : Result LedgerCode (PaymentReconciliation × ReviewDb) → ReviewDb
tables_in (ok w) = w.1
tables_in (err _) = before_review

-- The one case of the tenant is proposed, and the one who proposed it cannot agree to it.
same_person :
    decide_payment_reconciliation hashes
      (review_in proposing)
      approve
      (codes "ok")
      1
      5
      (102 * day)
      (tables_in proposing)
    ≡ err maker_checker_conflict
unfolding propose_payment_reconciliation payment_match_candidates original_case candidate_of
    order_by text_eq strip upper store_review proposed_review decide_payment_reconciliation
same_person = refl
