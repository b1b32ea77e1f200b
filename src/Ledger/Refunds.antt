-- ===== src/Ledger/Refunds.antt =====
-- The refunds of a payment never come to more than the payment.
use luheng_fulfillops_cloud.Base.{
  ℕ, ◌+◌, ◌≤◌, ◌≡◌, sym, subst, inl, inr, Bool, not, [], ◌∷◌, ◌++◌, arith, Text, ok, Returned,
  Returned-raise_if, Returned-ok, Result-cases, ltb, naive_utc, second, ◌*◌, Option-cases, ◌==◌,
}
use luheng_fulfillops_cloud.Base.Int.{abs}
use luheng_fulfillops_cloud.Repayment.Rows.{RecoveryLedgerEntry}
use luheng_fulfillops_cloud.Ledger.Rows.{
  LedgerDb, Hashes, PaymentReceipt, idempotency_conflict, currency_denied, amount_limit_exceeded,
  occurred_at_in_future,
}
use luheng_fulfillops_cloud.Repayment.Allocation.{allocate_recovery_to_plan}
use luheng_fulfillops_cloud.Repayment.Allocation.Replay.{allocate_recovery_to_plan-label}
use luheng_fulfillops_cloud.Ledger.Reconcile.{
  booking_terms, book_receipt, reconcile_receipt, new_recovery,
}
use luheng_fulfillops_cloud.Ledger.Webhook.{
  VerifiedEvent, new_receipt, find_receipt, book_or_hold, store_receipt, accept_new, accept_known,
  accept_payment_webhook,
}
use luheng_fulfillops_cloud.Ledger.Summary.{refresh_booked_metrics}
use luheng_fulfillops_cloud.Ledger.Booked.{reconcile_receipt-cases}
use luheng_fulfillops_cloud.Ledger.Terms.{BookingTerms, refunded_cents}
use luheng_fulfillops_cloud.Ledger.Refundable.{
  Fits, RefundsWithin, TermsFit, append-RefundsWithin, booking_terms-TermsFit, paid_cents,
}

new_recovery-Fits :
    (receipt : PaymentReceipt) (case_id : Text) (t : BookingTerms) (db : LedgerDb)
    → TermsFit db receipt.tenant_id t
    → Fits (new_recovery receipt case_id t) db.recoveries
unfolding new_recovery
new_recovery-Fits receipt case_id t db h tenant id hit =
    let same : receipt.tenant_id ≡ tenant = ground arith in
    subst
      (λ x. refunded_cents x id db.recoveries + abs t.amount_cents ≤ paid_cents x id db.recoveries)
      same (h id (ground arith))

book_receipt-RefundsWithin :
    (hashes : Hashes) (receipt : PaymentReceipt) (case_id : Text) (t : BookingTerms)
    (created_by now : ℕ) (db : LedgerDb)
    → Fits (new_recovery receipt case_id t) db.recoveries
    → RefundsWithin db.recoveries
    → RefundsWithin (book_receipt hashes receipt case_id t created_by now db).2.recoveries
unfolding book_receipt
book_receipt-RefundsWithin hashes receipt case_id t created_by now db fits h =
    let entry = new_recovery receipt case_id t in
    let entry' = (allocate_recovery_to_plan hashes.id_digest entry now db.plan_tables).0 in
    let label = allocate_recovery_to_plan-label hashes.id_digest entry now db.plan_tables in
    append-RefundsWithin db.recoveries entry' (subst (λ x. Fits x db.recoveries) (sym label) fits) h

-- A receipt that is reconciled keeps the refunds of every payment within the payment.
pub reconcile_receipt-RefundsWithin :
    (hashes : Hashes) (receipt : PaymentReceipt) (created_by now : ℕ) (db : LedgerDb)
    {entry : RecoveryLedgerEntry} {r : PaymentReceipt} {db' : LedgerDb}
    → reconcile_receipt hashes receipt created_by now db ≡ ok (entry, r, db')
    → RefundsWithin db.recoveries
    → RefundsWithin db'.recoveries
reconcile_receipt-RefundsWithin hashes receipt created_by now db {db'} e h =
    elim (reconcile_receipt-cases hashes receipt created_by now db e) [
      | inl (_, same) ↦ subst (λ (d : LedgerDb). RefundsWithin d.recoveries) (sym same) h
      | inr b ↦
          let fits = new_recovery-Fits receipt b.case_id b.terms db (
            Returned-ok (TermsFit db receipt.tenant_id) (booking_terms db receipt b.case_id)
              (booking_terms-TermsFit db receipt b.case_id) b.priced) in
          subst (λ w. RefundsWithin w.2.recoveries) b.written
            (book_receipt-RefundsWithin hashes receipt b.case_id b.terms created_by now db fits h)
    ]

book_or_hold-RefundsWithin :
    (hashes : Hashes) (receipt : PaymentReceipt) (actor_id now : ℕ) (db : LedgerDb)
    → RefundsWithin db.recoveries
    → RefundsWithin (book_or_hold hashes receipt actor_id now db).1.recoveries
unfolding book_or_hold
book_or_hold-RefundsWithin hashes receipt actor_id now db h =
    elim (Result-cases (reconcile_receipt hashes receipt actor_id now db)) [
      | inl (w, e) ↦
          rw (e, book_or_hold) (reconcile_receipt-RefundsWithin hashes receipt actor_id now db e h)
      | inr (code, e) ↦ rw (e, book_or_hold) h
    ]

abbrev KeepsWithin : PaymentReceipt × Bool × LedgerDb → Type 0
KeepsWithin w = RefundsWithin w.2.recoveries

accept_new-RefundsWithin :
    (hashes : Hashes) (e : VerifiedEvent) (now : ℕ) (db : LedgerDb)
    → RefundsWithin db.recoveries
    → Returned KeepsWithin (accept_new hashes e now db)
unfolding accept_new store_receipt refresh_booked_metrics
accept_new-RefundsWithin hashes e now db h =
    let receipt = new_receipt e db.next_id now in
    let kept =
      book_or_hold-RefundsWithin hashes receipt e.webhook_actor now
        (record db { receipts = db.receipts ++ receipt ∷ []; next_id = db.next_id + 1 }) h in
    Returned-raise_if KeepsWithin (not e.is_cny) currency_denied _ (λ _.
      Returned-raise_if KeepsWithin (ltb e.max_amount_cents e.amount_cents) amount_limit_exceeded _
        (λ _.
          Returned-raise_if KeepsWithin
            (ltb (now + e.tolerance_seconds * second) (naive_utc e.occurred_at))
            occurred_at_in_future _ (λ _. kept)))

-- Where the refunds of every payment are within the payment, accepting an event that returns, whatever
-- becomes of its receipt, keeps them so.
pub accept_payment_webhook-RefundsWithin :
    (hashes : Hashes) (e : VerifiedEvent) (now : ℕ) (db : LedgerDb)
    → RefundsWithin db.recoveries
    → Returned (λ w. RefundsWithin w.2.recoveries) (accept_payment_webhook hashes e now db)
unfolding accept_payment_webhook accept_known
accept_payment_webhook-RefundsWithin hashes e now db h = elim (Option-cases (find_receipt db e)) [
  | inl fresh ↦ rw (fresh, accept_payment_webhook) (accept_new-RefundsWithin hashes e now db h)
  | inr (existing, found) ↦
      rw (found, accept_payment_webhook)
        (Returned-raise_if KeepsWithin (not (existing.payload_digest == e.payload_digest))
          idempotency_conflict _ (λ _. h))
]
