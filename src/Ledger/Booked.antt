-- ===== src/Ledger/Booked.antt =====
-- What a receipt that is reconciled has passed and written.
use luheng_fulfillops_cloud.Base.{
  ℕ, ◌≡◌, ◌⊎◌, inl, inr, some, Text, ok, Option-cases, >>=-eq_ok, or_raise-eq_some,
}
use luheng_fulfillops_cloud.Repayment.Rows.{RecoveryLedgerEntry}
use luheng_fulfillops_cloud.Ledger.Rows.{LedgerDb, Hashes, PaymentReceipt, case_unmatched}
use luheng_fulfillops_cloud.Ledger.Terms.{BookingTerms, non_empty}
use luheng_fulfillops_cloud.Ledger.Reconcile.{
  booking_terms, book_receipt, reconcile_new, reconcile_receipt, find_recovery, matched_case,
}

pub record Booked (hashes : Hashes) (receipt : PaymentReceipt) (created_by now : ℕ) (db : LedgerDb)
    (entry : RecoveryLedgerEntry) (r : PaymentReceipt) (db' : LedgerDb) : Type 0 where
  pub case_id : Text
  pub terms : BookingTerms
  pub priced : booking_terms db receipt case_id ≡ ok terms
  pub written : book_receipt hashes receipt case_id terms created_by now db ≡ (entry, r, db')

module _ (hashes : Hashes) (receipt : PaymentReceipt) (created_by now : ℕ) (db : LedgerDb) where
  pub reconcile_new-Booked :
      {entry : RecoveryLedgerEntry} {r : PaymentReceipt} {db' : LedgerDb}
      → reconcile_new hashes receipt created_by now db ≡ ok (entry, r, db')
      → Booked hashes receipt created_by now db entry r db'
  unfolding reconcile_new
  reconcile_new-Booked h =
      let (case_id, _, h₁) =
        or_raise-eq_some (non_empty (some (matched_case receipt))) case_unmatched _ h in
      let (t, p, h₂) = >>=-eq_ok (booking_terms db receipt case_id) _ h₁ in
      record { case_id = case_id; terms = t; priced = p; written = cc h₂ }

  -- A receipt that has its entry is left as it is.
  pub reconcile_receipt-cases :
      {entry : RecoveryLedgerEntry} {r : PaymentReceipt} {db' : LedgerDb}
      → reconcile_receipt hashes receipt created_by now db ≡ ok (entry, r, db')
      → ((r ≡ receipt) × (db' ≡ db)) ⊎ Booked hashes receipt created_by now db entry r db'
  unfolding reconcile_receipt
  reconcile_receipt-cases h =
      elim (Option-cases (find_recovery db receipt.tenant_id receipt.recovery_entry_id)) [
        | inl fresh ↦ inr (reconcile_new-Booked (rw (fresh, reconcile_receipt) at h))
        | inr (existing, found) ↦ let q = rw (found, reconcile_receipt) at h in inl (cc q, cc q)
      ]
