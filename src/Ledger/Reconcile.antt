-- ===== src/Ledger/Reconcile.antt =====
-- `_add_commission_entry`, `_reconcile_receipt` and `match_payment_receipt` of
-- backend/app/financial_ledger.py.
use luheng_fulfillops_cloud.Base.{
  ℕ, ◌+◌, ◌&&◌, Option, none, some, List, [], ◌∷◌, ◌++◌, ltb, ◌==◌, if◌then◌else◌, first, update,
  Text, text_eq, strip, upper, codes, Result, ok, ◌>>=◌, or_raise,
}
use luheng_fulfillops_cloud.Base.Int.{neg_part}
use luheng_fulfillops_cloud.Repayment.Rows.{RecoveryLedgerEntry, payment, refund, matched_by_case}
use luheng_fulfillops_cloud.Repayment.Allocation.{allocate_recovery_to_plan}
use luheng_fulfillops_cloud.Ledger.Rows.{
  LedgerDb, Hashes, CommissionLedgerEntry, CommissionEvent, accrual, reversal, from_recovery,
  PaymentReceipt, matched, is_matched, LedgerCode, case_unmatched, ledger_integrity_error,
  receipt_matched,
}
use luheng_fulfillops_cloud.Ledger.Terms.{
  BookingTerms, commission_cents, non_empty, payment_terms, refund_terms,
}
use luheng_fulfillops_cloud.Ledger.Summary.{refresh_booked_metrics}

-- `f"{provider}:{provider_event_id}"`
abbrev pub entry_id_of : PaymentReceipt → Text
entry_id_of r = r.provider ++ 58 ∷ r.provider_event_id

unfoldable pub new_recovery : PaymentReceipt → Text → BookingTerms → RecoveryLedgerEntry
new_recovery receipt case_id t = record {
  entry_id = entry_id_of receipt;
  tenant_id = receipt.tenant_id;
  receipt_id = receipt.id;
  case_id = case_id;
  package_id = t.package_id;
  event_type = receipt.event_type;
  amount_cents = t.amount_cents;
  eligible_amount_cents = t.eligible_cents;
  commission_rule_id = t.rule_id;
  commission_rule_version = t.rule_version;
  rate_bps = t.rate_bps;
  commission_cents = commission_cents t.eligible_cents t.rate_bps;
  reason = t.reason;
  original_entry_id = t.original_entry_id;
  allocation = matched_by_case case_id;
  booked_at = receipt.occurred_at;
}

abbrev pub find_recovery : LedgerDb → ℕ → Option Text → Option RecoveryLedgerEntry
find_recovery db tenant_id none = none
find_recovery db tenant_id (some entry_id) =
    first (λ (e : RecoveryLedgerEntry). e.tenant_id == tenant_id && text_eq e.entry_id entry_id)
      db.recoveries

-- `str(receipt.case_id or "").strip().upper()`
abbrev pub matched_case : PaymentReceipt → Text
matched_case receipt = elim receipt.case_id [ none ↦ [] | some s ↦ upper (strip s) ]

unfoldable pub booking_terms : LedgerDb → PaymentReceipt → Text → Result LedgerCode BookingTerms
booking_terms db receipt case_id = elim receipt.event_type [
  | payment ↦ payment_terms db receipt case_id
  | refund ↦ refund_terms db receipt case_id
]

unfoldable pub write_receipt : PaymentReceipt → List PaymentReceipt → List PaymentReceipt
write_receipt receipt = update (λ (r : PaymentReceipt). r.id == receipt.id) (λ _. receipt)

module _ (hashes : Hashes) where
  -- The words before the entry's number in the reference are left out.
  unfoldable pub new_commission : RecoveryLedgerEntry → ℕ → ℕ → CommissionLedgerEntry
  new_commission recovery created_by event_id =
      let event_type : CommissionEvent =
        if ltb 0 (neg_part recovery.commission_cents) then reversal else accrual in
      record {
        tenant_id = recovery.tenant_id;
        event_id = event_id;
        event_type = event_type;
        amount_cents = recovery.commission_cents;
        source_recovery_entry_id = some recovery.entry_id;
        reference = recovery.entry_id;
        idempotency_key = codes "recovery:" ++ hashes.key_digest recovery.entry_id;
        payload_digest =
            hashes.payload_digest
              (from_recovery event_type recovery.commission_cents recovery.entry_id);
        created_by = created_by;
        occurred_at = recovery.booked_at;
      }

  -- The writes of a receipt that is booked.
  unfoldable pub book_receipt :
      PaymentReceipt
      → Text
      → BookingTerms
      → ℕ
      → ℕ
      → LedgerDb
      → RecoveryLedgerEntry × PaymentReceipt × LedgerDb
  unfolding new_commission write_receipt
  book_receipt receipt case_id t created_by now db =
      let entry : RecoveryLedgerEntry = new_recovery receipt case_id t in
      let (entry', _, plan_tables) =
        allocate_recovery_to_plan hashes.id_digest entry now db.plan_tables in
      let receipt' : PaymentReceipt = record receipt {
        status = matched;
        failure_code = none;
        recovery_entry_id = some entry.entry_id;
        updated_at = now;
      } in
      (
        entry',
        receipt',
        record db {
          plan_tables = plan_tables;
          receipts = write_receipt receipt' db.receipts;
          recoveries = db.recoveries ++ entry' ∷ [];
          commissions = db.commissions ++ new_commission entry created_by db.next_id ∷ [];
          next_id = db.next_id + 1;
        },
      )

  unfoldable pub reconcile_new :
      PaymentReceipt
      → ℕ
      → ℕ
      → LedgerDb
      → Result LedgerCode (RecoveryLedgerEntry × PaymentReceipt × LedgerDb)
  reconcile_new receipt created_by now db = do
    case_id ← or_raise (non_empty (some (matched_case receipt))) case_unmatched
    t ← booking_terms db receipt case_id
    ok (book_receipt receipt case_id t created_by now db)

  unfoldable pub reconcile_receipt :
      PaymentReceipt
      → ℕ
      → ℕ
      → LedgerDb
      → Result LedgerCode (RecoveryLedgerEntry × PaymentReceipt × LedgerDb)
  reconcile_receipt receipt created_by now db =
      elim (find_recovery db receipt.tenant_id receipt.recovery_entry_id) [
        | some existing ↦ ok (existing, receipt, db)
        | none ↦ reconcile_new receipt created_by now db
      ]

  unfoldable pub match_payment_receipt :
      PaymentReceipt → Text → ℕ → ℕ → LedgerDb → Result LedgerCode (RecoveryLedgerEntry × LedgerDb)
  match_payment_receipt receipt case_id actor_id now db =
      let found = find_recovery db receipt.tenant_id receipt.recovery_entry_id in
      let fresh : Result LedgerCode (RecoveryLedgerEntry × LedgerDb) = (do
        (entry, r, db') ←
            reconcile_receipt (record receipt { case_id = some (upper (strip case_id)) }) actor_id
              now db
        ok (
          entry,
          refresh_booked_metrics receipt.tenant_id now db (record db' {
            receipts = write_receipt r db'.receipts;
            ledger_audit =
                db'.ledger_audit
                ++ receipt_matched receipt.tenant_id actor_id receipt.id entry.case_id
                    entry.entry_id
                  ∷ [];
          }),
        )) in
      if is_matched receipt.status
      then (do entry ← or_raise found ledger_integrity_error; ok (entry, db))
      else fresh
