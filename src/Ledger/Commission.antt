-- ===== src/Ledger/Commission.antt =====
-- `record_commission_event` of backend/app/financial_ledger.py: settlements and collections of
-- commission, entered by hand.
use luheng_fulfillops_cloud.Base.{
  ℕ, ◌+◌, ◌&&◌, ◌||◌, Bool, true, false, not, Option, none, some, [], ◌∷◌, ◌++◌, ◌==◌, first, Text,
  text_eq, Result, ok, ◌>>◌, raise_if, Datetime, naive_utc,
}
use luheng_fulfillops_cloud.Base.Int.{pos, ltb_ℤ}
use luheng_fulfillops_cloud.Ledger.Rows.{
  LedgerDb, Hashes, CommissionLedgerEntry, CommissionEvent, from_request, LedgerCode,
  idempotency_conflict, invalid_commission_event, settlement_exceeds_accrual,
  collection_exceeds_settlement, commission_recorded,
}
use luheng_fulfillops_cloud.Ledger.Summary.{
  settles, collects, financial_summary, refresh_business_metrics,
}

pub record CommissionRequest : Type 0 where
  pub tenant_id : ℕ
  pub event_type : CommissionEvent
  pub amount_cents : ℕ
  pub reference : Text
  pub idempotency_key : Text
  pub actor_id : ℕ
  pub occurred_at : Datetime

-- `event_type in SUPPORTED_COMMISSION_EVENTS`
abbrev pub is_supported : CommissionEvent → Bool
is_supported t = settles t || collects t

unfoldable pub find_commission : LedgerDb → ℕ → Text → Option CommissionLedgerEntry
find_commission db tenant_id key =
    first (λ (e : CommissionLedgerEntry). e.tenant_id == tenant_id && text_eq e.idempotency_key key)
      db.commissions

unfoldable pub requested_entry : CommissionRequest → ℕ → ℕ → CommissionLedgerEntry
requested_entry r digest event_id = record {
  tenant_id = r.tenant_id;
  event_id = event_id;
  event_type = r.event_type;
  amount_cents = pos r.amount_cents;
  source_recovery_entry_id = none;
  reference = r.reference;
  idempotency_key = r.idempotency_key;
  payload_digest = digest;
  created_by = r.actor_id;
  occurred_at = naive_utc r.occurred_at;
}

unfoldable pub store_commission :
    CommissionRequest → ℕ → ℕ → LedgerDb → CommissionLedgerEntry × LedgerDb
store_commission r digest now db =
    let entry : CommissionLedgerEntry = requested_entry r digest db.next_id in
    (
      entry,
      refresh_business_metrics r.tenant_id now (record db {
        commissions = db.commissions ++ entry ∷ [];
        ledger_audit =
            db.ledger_audit
            ++ commission_recorded r.tenant_id r.actor_id entry.event_id r.event_type r.amount_cents
              ∷ [];
        next_id = db.next_id + 1;
      }),
    )

-- The entry, whether it was there before, and the tables.
unfoldable pub record_new :
    CommissionRequest
    → ℕ
    → ℕ
    → LedgerDb
    → Result LedgerCode (CommissionLedgerEntry × Bool × LedgerDb)
record_new r digest now db = do
  let s = financial_summary db r.tenant_id
  raise_if (settles r.event_type && ltb_ℤ s.unsettled_commission_cents (pos r.amount_cents))
      settlement_exceeds_accrual
  raise_if (collects r.event_type && ltb_ℤ s.uncollected_settlement_cents (pos r.amount_cents))
      collection_exceeds_settlement
  let (entry, db') = store_commission r digest now db
  ok (entry, false, db')

unfoldable pub record_known :
    CommissionLedgerEntry
    → ℕ
    → LedgerDb
    → Result LedgerCode (CommissionLedgerEntry × Bool × LedgerDb)
record_known existing digest db = do
  raise_if (not (existing.payload_digest == digest)) idempotency_conflict
  ok (existing, true, db)

unfoldable pub record_commission_event :
    Hashes
    → CommissionRequest
    → ℕ
    → LedgerDb
    → Result LedgerCode (CommissionLedgerEntry × Bool × LedgerDb)
record_commission_event hashes r now db = do
  raise_if (not (is_supported r.event_type)) invalid_commission_event
  let digest =
      hashes.payload_digest
        (from_request r.event_type r.amount_cents r.reference (naive_utc r.occurred_at))
  elim (find_commission db r.tenant_id r.idempotency_key) [
    | some existing ↦ record_known existing digest db
    | none ↦ record_new r digest now db
  ]
