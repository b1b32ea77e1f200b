-- ===== src/Ledger/Reviewed.antt =====
-- A receipt that was held is booked by two persons, and within its payment.
use luheng_fulfillops_cloud.Base.{In, Bool, ℕ, ◌≡◌, some, ok, ◌==◌, ◌&&◌}
use luheng_fulfillops_cloud.Cases.{Decision, approve, reject, unknown}
use luheng_fulfillops_cloud.Repayment.Rows.{RecoveryLedgerEntry}
use luheng_fulfillops_cloud.Ledger.Rows.{
  LedgerDb, Hashes, PaymentReceipt, rejected, reconciliation_rejected,
}
use luheng_fulfillops_cloud.Ledger.Reconcile.{write_receipt, match_payment_receipt}
use luheng_fulfillops_cloud.Ledger.Refundable.{RefundsWithin}
use luheng_fulfillops_cloud.Ledger.ReviewRows.{
  PaymentReconciliation, review_approved, review_rejected,
}

abbrev MatchKeeps : RecoveryLedgerEntry × LedgerDb → Type 0
MatchKeeps w = RefundsWithin w.1.recoveries × In w.0 w.1.recoveries

-- The receipt that the proposal is about.
abbrev pub is_receipt_of : PaymentReconciliation → PaymentReceipt → Bool
is_receipt_of v r = r.id == v.receipt_id && r.tenant_id == v.tenant_id

-- What a decision of a reviewer has booked: a rejection nothing, and an approval the receipt, for the case that
-- was proposed, as `match_payment_receipt` does; the proposal names the entry.
abbrev pub Settled :
    Hashes
    → Decision
    → PaymentReceipt
    → (actor_id now : ℕ) → LedgerDb
    → PaymentReconciliation
    → LedgerDb
    → Type 0
Settled hashes approve receipt actor_id now before v after =
    RefundsWithin after.recoveries
    × (v.status ≡ review_approved)
    × (entry : RecoveryLedgerEntry) × (match_payment_receipt hashes receipt v.proposed_case_id
          actor_id now before
        ≡ ok (entry, after))
    × (v.recovery_entry_id ≡ some entry.entry_id)
    × In entry after.recoveries
Settled hashes reject receipt actor_id now before v after =
    RefundsWithin after.recoveries
    × (v.status ≡ review_rejected)
    × (after.recoveries ≡ before.recoveries)
    × (after.commissions ≡ before.commissions)
    × (after.plan_tables ≡ before.plan_tables)
    × (after.receipts
        ≡ write_receipt
            (record receipt {
              status = rejected;
              failure_code = some reconciliation_rejected;
              updated_at = now;
            })
            before.receipts)
Settled hashes unknown receipt actor_id now before v after = ⊥
