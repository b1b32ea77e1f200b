-- ===== src/Ledger/Webhook.antt =====
-- `accept_payment_webhook` of backend/app/financial_ledger.py past the check of the signature, which is
-- in Signature. `VerifiedEvent` holds what that check returns and the payload that it is about. An event
-- that two requests insert at once is a conflict of the database, and is not modelled.
use luheng_fulfillops_cloud.Base.{
  ℕ, ◌+◌, ◌*◌, ◌&&◌, Bool, true, false, not, Option, none, some, [], ◌∷◌, ◌++◌, ltb, ◌==◌, first,
  Text, text_eq, upper, Result, ok, err, ◌>>◌, raise_if, Datetime, naive_utc, second,
}
use luheng_fulfillops_cloud.Repayment.Rows.{RecoveryEvent}
use luheng_fulfillops_cloud.Ledger.Rows.{
  LedgerDb, Hashes, PaymentReceipt, ReceiptStatus, accepted, unmatched, review_required, LedgerCode,
  case_unmatched, idempotency_conflict, currency_denied, amount_limit_exceeded,
  occurred_at_in_future, receipt_accepted,
}
use luheng_fulfillops_cloud.Ledger.Summary.{refresh_booked_metrics}
use luheng_fulfillops_cloud.Ledger.Reconcile.{reconcile_receipt, write_receipt}

pub record VerifiedEvent : Type 0 where
  pub tenant_id : ℕ
  pub provider : Text
  pub max_amount_cents : ℕ
  pub tolerance_seconds : ℕ
  pub webhook_actor : ℕ
  pub payload_digest : ℕ
  pub signature_digest : ℕ
  pub event_id : Text
  pub event_type : RecoveryEvent
  pub amount_cents : ℕ
  pub is_cny : Bool
  pub occurred_at : Datetime
  pub case_id : Option Text
  pub original_event_id : Option Text

-- `value.upper() if value else None`
abbrev upper_case_id : Option Text → Option Text
upper_case_id none = none
upper_case_id (some []) = none
upper_case_id (some (c ∷ s)) = some (upper (c ∷ s))

unfoldable pub new_receipt : VerifiedEvent → ℕ → ℕ → PaymentReceipt
new_receipt e id now = record {
  id = id;
  tenant_id = e.tenant_id;
  provider = e.provider;
  provider_event_id = e.event_id;
  event_type = e.event_type;
  amount_cents = e.amount_cents;
  occurred_at = naive_utc e.occurred_at;
  case_id = upper_case_id e.case_id;
  original_provider_event_id = e.original_event_id;
  payload_digest = e.payload_digest;
  signature_digest = e.signature_digest;
  status = accepted;
  failure_code = none;
  recovery_entry_id = none;
  duplicate_count = 0;
  updated_at = now;
}

abbrev pub is_event : VerifiedEvent → PaymentReceipt → Bool
is_event e r =
    r.tenant_id == e.tenant_id
    && text_eq r.provider e.provider
    && text_eq r.provider_event_id e.event_id

unfoldable pub find_receipt : LedgerDb → VerifiedEvent → Option PaymentReceipt
find_receipt db e = first (is_event e) db.receipts

abbrev failed_status : LedgerCode → ReceiptStatus
failed_status case_unmatched = unmatched
failed_status _ = review_required

unfoldable pub count_duplicate : PaymentReceipt → ℕ → PaymentReceipt
count_duplicate r now = record r { duplicate_count = r.duplicate_count + 1; updated_at = now }

unfoldable pub accept_known :
    VerifiedEvent
    → PaymentReceipt
    → ℕ
    → LedgerDb
    → Result LedgerCode (PaymentReceipt × Bool × LedgerDb)
accept_known e existing now db = do
  raise_if (not (existing.payload_digest == e.payload_digest)) idempotency_conflict
  ok (
    count_duplicate existing now,
    true,
    record db { receipts = write_receipt (count_duplicate existing now) db.receipts },
  )

module _ (hashes : Hashes) where
  -- A receipt that cannot be booked stays, with the reason: the error is raised before any write.
  unfoldable pub book_or_hold : PaymentReceipt → ℕ → ℕ → LedgerDb → PaymentReceipt × LedgerDb
  book_or_hold receipt actor_id now db = elim (reconcile_receipt hashes receipt actor_id now db) [
    | ok (_, r, db') ↦ (r, db')
    | err code ↦
        let r : PaymentReceipt = record receipt {
          status = failed_status code;
          failure_code = some code;
        } in
        (r, record db { receipts = write_receipt r db.receipts })
  ]

  unfoldable pub store_receipt : VerifiedEvent → ℕ → LedgerDb → PaymentReceipt × LedgerDb
  store_receipt e now db =
      let receipt : PaymentReceipt = new_receipt e db.next_id now in
      let (r, db') =
        book_or_hold receipt e.webhook_actor now
          (record db { receipts = db.receipts ++ receipt ∷ []; next_id = db.next_id + 1 }) in
      (
        r,
        refresh_booked_metrics e.tenant_id now db (record db' {
          ledger_audit = db'.ledger_audit ++ receipt_accepted e.tenant_id r.id r.status ∷ [];
        }),
      )

  -- The receipt, whether it is a duplicate, and the tables.
  unfoldable pub accept_new :
      VerifiedEvent → ℕ → LedgerDb → Result LedgerCode (PaymentReceipt × Bool × LedgerDb)
  accept_new e now db = do
    raise_if (not e.is_cny) currency_denied
    raise_if (ltb e.max_amount_cents e.amount_cents) amount_limit_exceeded
    raise_if (ltb (now + e.tolerance_seconds * second) (naive_utc e.occurred_at))
        occurred_at_in_future
    let (r, db') = store_receipt e now db
    ok (r, false, db')

  unfoldable pub accept_payment_webhook :
      VerifiedEvent → ℕ → LedgerDb → Result LedgerCode (PaymentReceipt × Bool × LedgerDb)
  accept_payment_webhook e now db = elim (find_receipt db e) [
    | some existing ↦ accept_known e existing now db
    | none ↦ accept_new e now db
  ]
