-- ===== src/Ledger/Duplicates.antt =====
-- An event that is accepted has its receipt in the table.
use luheng_fulfillops_cloud.Base.{
  ℕ, ◌+◌, ◌≡◌, refl, sym, subst, inl, inr, Bool, true, not, none, some, List, [], ◌∷◌, ◌++◌, arith,
  first, Returned, Returned-raise_if, first-update, first-append_new, first_holds, text_eq_refl,
  ◌==◌, ==_refl, Option-cases, Result-cases, ltb, naive_utc, ◌*◌, second,
}
use luheng_fulfillops_cloud.Repayment.Rows.{RecoveryLedgerEntry}
use luheng_fulfillops_cloud.Ledger.Rows.{
  LedgerDb, Hashes, PaymentReceipt, idempotency_conflict, currency_denied, amount_limit_exceeded,
  occurred_at_in_future,
}
use luheng_fulfillops_cloud.Ledger.Summary.{refresh_booked_metrics}
use luheng_fulfillops_cloud.Ledger.Reconcile.{write_receipt, reconcile_receipt, book_receipt}
use luheng_fulfillops_cloud.Ledger.Booked.{Booked, reconcile_receipt-cases}
use luheng_fulfillops_cloud.Ledger.Webhook.{
  VerifiedEvent, new_receipt, is_event, find_receipt, count_duplicate, book_or_hold, store_receipt,
  accept_new, accept_known, accept_payment_webhook,
}

-- The receipt of the event is the row that its number finds.
pub record IsStored (e : VerifiedEvent) (r : PaymentReceipt) (db : LedgerDb) : Type 0 where
  pub found : find_receipt db e ≡ some r
  pub same : (r.payload_digest == e.payload_digest) ≡ true

new_receipt-is_event : (e : VerifiedEvent) (id now : ℕ) → is_event e (new_receipt e id now) ≡ true
unfolding new_receipt
new_receipt-is_event e id now = rw (==_refl, text_eq_refl, text_eq_refl)

-- What is written over a receipt that is found is found.
write_receipt-found :
    (e : VerifiedEvent) (r r' : PaymentReceipt) (receipts : List PaymentReceipt)
    → first (is_event e) receipts ≡ some r
    → r'.id ≡ r.id
    → is_event e r' ≡ true
    → first (is_event e) (write_receipt r' receipts) ≡ some r'
unfolding write_receipt
write_receipt-found e r r' receipts f same k =
    first-update (is_event e) (λ (x : PaymentReceipt). x.id == r'.id) receipts r r' f
      (ground (arith, same)) k

module _ (hashes : Hashes) (e : VerifiedEvent) where
  Booked-IsStored :
      {receipt r : PaymentReceipt} {actor_id now : ℕ} {db db' : LedgerDb}
      {entry : RecoveryLedgerEntry}
      → Booked hashes receipt actor_id now db entry r db'
      → find_receipt db e ≡ some receipt
      → is_event e receipt ≡ true
      → (receipt.payload_digest == e.payload_digest) ≡ true
      → IsStored e r db'
  unfolding book_receipt find_receipt
  Booked-IsStored {receipt} {r} {actor_id} {now} {db} b f k d =
      subst (λ w. IsStored e w.1 w.2) b.written
        (record { found = write_receipt-found e receipt _ db.receipts f refl k; same = d })

  book_or_hold-IsStored :
      (receipt : PaymentReceipt) (actor_id now : ℕ) (db : LedgerDb)
      → find_receipt db e ≡ some receipt
      → is_event e receipt ≡ true
      → (receipt.payload_digest == e.payload_digest) ≡ true
      → let w = book_or_hold hashes receipt actor_id now db in IsStored e w.0 w.1
  unfolding book_or_hold find_receipt
  book_or_hold-IsStored receipt actor_id now db f k d =
      elim (Result-cases (reconcile_receipt hashes receipt actor_id now db)) [
        | inr (code, failed) ↦
            rw (failed, book_or_hold)
              (record { found = write_receipt-found e receipt _ db.receipts f refl k; same = d })
        | inl ((entry, r, db'), done) ↦
            rw (done, book_or_hold)
              (elim (reconcile_receipt-cases hashes receipt actor_id now db done) [
                | inl (same_receipt, same_db) ↦
                    subst (λ x. IsStored e x db') (sym same_receipt)
                      (subst (IsStored e receipt) (sym same_db) (record { found = f; same = d }))
                | inr b ↦ Booked-IsStored b f k d
              ])
      ]

  abbrev pub Stored : PaymentReceipt × Bool × LedgerDb → Type 0
  Stored w = IsStored e w.0 w.2

  accept_new-IsStored :
      (now : ℕ) (db : LedgerDb)
      → find_receipt db e ≡ none
      → Returned Stored (accept_new hashes e now db)
  unfolding accept_new store_receipt find_receipt refresh_booked_metrics
  accept_new-IsStored now db f =
      let receipt = new_receipt e db.next_id now in
      let db₁ : LedgerDb = record db {
        receipts = db.receipts ++ receipt ∷ [];
        next_id = db.next_id + 1;
      } in
      let stored =
        book_or_hold-IsStored receipt e.webhook_actor now db₁
          (first-append_new (is_event e) db.receipts receipt f
            (new_receipt-is_event e db.next_id now))
          (new_receipt-is_event e db.next_id now)
          (unfold new_receipt in ==_refl e.payload_digest) in
      Returned-raise_if Stored (not e.is_cny) currency_denied _ (λ _.
        Returned-raise_if Stored (ltb e.max_amount_cents e.amount_cents) amount_limit_exceeded _
          (λ _.
            Returned-raise_if Stored
              (ltb (now + e.tolerance_seconds * second) (naive_utc e.occurred_at))
              occurred_at_in_future _ (λ _. record { found = stored.found; same = stored.same })))

  accept_known-IsStored :
      (now : ℕ) (db : LedgerDb) (existing : PaymentReceipt)
      → find_receipt db e ≡ some existing
      → Returned Stored (accept_known e existing now db)
  unfolding accept_known find_receipt count_duplicate
  accept_known-IsStored now db existing f =
      Returned-raise_if Stored (not (existing.payload_digest == e.payload_digest))
        idempotency_conflict _
        (λ d. record {
          found =
              write_receipt-found e existing _ db.receipts f refl
                (first_holds (is_event e) db.receipts f);
          same = ground arith;
        })

  -- What an event that is accepted leaves holds its receipt.
  pub accept_payment_webhook-IsStored :
      (now : ℕ) (db : LedgerDb) → Returned Stored (accept_payment_webhook hashes e now db)
  unfolding accept_payment_webhook
  accept_payment_webhook-IsStored now db = elim (Option-cases (find_receipt db e)) [
    | inl fresh ↦ rw (fresh, accept_payment_webhook) (accept_new-IsStored now db fresh)
    | inr (existing, found) ↦
        rw (found, accept_payment_webhook) (accept_known-IsStored now db existing found)
  ]
