-- ===== src/Ledger/Balance.antt =====
-- What is collected has been settled: the balance of the commissions that are entered by hand.
use luheng_fulfillops_cloud.Base.{
  ℕ, ◌+◌, ◌≡◌, inl, inr, Bool, false, not, List, [], ◌∷◌, ◌++◌, arith, Returned, Returned-raise_if,
  Option-cases, ◌==◌, ◌&&◌, naive_utc, Bool-cases, subst, ==→eq,
}
use luheng_fulfillops_cloud.Base.Int.{
  ℤ, pos, pos_part, neg_part, ◌-ℤ◌, ◌≤ℤ◌, +ℤ_parts, -ℤ_parts, ltb_ℤ,
}
use luheng_fulfillops_cloud.Ledger.Rows.{
  LedgerDb, Hashes, CommissionLedgerEntry, settlement, from_request, idempotency_conflict,
  invalid_commission_event, settlement_exceeds_accrual, collection_exceeds_settlement,
}
use luheng_fulfillops_cloud.Ledger.Summary.{
  sum_of, accrues, settles, collects, counted_cents, commission_sum, financial_summary,
  refresh_business_metrics,
}
use luheng_fulfillops_cloud.Ledger.Commission.{
  CommissionRequest, is_supported, find_commission, requested_entry, store_commission, record_new,
  record_known, record_commission_event,
}

-- Of every tenant, no more is collected than is settled.
abbrev pub IsBalanced : List CommissionLedgerEntry → Type 0
IsBalanced entries = (t : ℕ) → commission_sum collects t entries ≤ℤ commission_sum settles t entries

sum_of-append :
    (f : CommissionLedgerEntry → ℤ) (xs : List CommissionLedgerEntry) (e : CommissionLedgerEntry)
    → pos_part (sum_of f (xs ++ e ∷ [])) + neg_part (sum_of f xs) + neg_part (f e)
      ≡ neg_part (sum_of f (xs ++ e ∷ [])) + pos_part (sum_of f xs) + pos_part (f e)
unfolding sum_of
sum_of-append f [] e = omega (arith, +ℤ_parts (f e) (pos 0))
sum_of-append f (x ∷ xs) e = omega (
  arith,
  sum_of-append f xs e,
  +ℤ_parts (f x) (sum_of f (xs ++ e ∷ [])),
  +ℤ_parts (f x) (sum_of f xs),
)

-- The two guards of a new entry, as equations.
record Guarded (r : CommissionRequest) (entries : List CommissionLedgerEntry) : Type 0 where
  settled :
      (settles r.event_type
        && ltb_ℤ
            (commission_sum accrues r.tenant_id entries
              -ℤ commission_sum settles r.tenant_id entries)
            (pos r.amount_cents))
      ≡ false
  collected :
      (collects r.event_type
        && ltb_ℤ
            (commission_sum settles r.tenant_id entries
              -ℤ commission_sum collects r.tenant_id entries)
            (pos r.amount_cents))
      ≡ false

own_tenant :
    (r : CommissionRequest) (digest id : ℕ) (entries : List CommissionLedgerEntry)
    → Guarded r entries
    → commission_sum collects r.tenant_id entries ≤ℤ commission_sum settles r.tenant_id entries
    → let entries' = entries ++ requested_entry r digest id ∷ [] in
      commission_sum collects r.tenant_id entries' ≤ℤ commission_sum settles r.tenant_id entries'
unfolding commission_sum requested_entry
own_tenant r digest id entries g h =
    let e = requested_entry r digest id in
    let a = sum_of-append (counted_cents collects r.tenant_id) entries e in
    let b = sum_of-append (counted_cents settles r.tenant_id) entries e in
    let left =
      -ℤ_parts (sum_of (counted_cents settles r.tenant_id) entries)
        (sum_of (counted_cents collects r.tenant_id) entries) in
    ground (arith, a, b, left, g.collected)

other_tenant :
    (r : CommissionRequest) (digest id t : ℕ) (entries : List CommissionLedgerEntry)
    → (r.tenant_id == t) ≡ false
    → commission_sum collects t entries ≤ℤ commission_sum settles t entries
    → let entries' = entries ++ requested_entry r digest id ∷ [] in
      commission_sum collects t entries' ≤ℤ commission_sum settles t entries'
unfolding commission_sum requested_entry
other_tenant r digest id t entries n h =
    let e = requested_entry r digest id in
    let a = sum_of-append (counted_cents collects t) entries e in
    let b = sum_of-append (counted_cents settles t) entries e in ground (arith, a, b)

requested_entry-IsBalanced :
    (r : CommissionRequest) (digest id : ℕ) (entries : List CommissionLedgerEntry)
    → Guarded r entries
    → IsBalanced entries
    → IsBalanced (entries ++ requested_entry r digest id ∷ [])
requested_entry-IsBalanced r digest id entries g h t = elim (Bool-cases (r.tenant_id == t)) [
  | inl same ↦
      subst
        (λ t.
          commission_sum collects t (entries ++ requested_entry r digest id ∷ [])
          ≤ℤ commission_sum settles t (entries ++ requested_entry r digest id ∷ []))
        (==→eq r.tenant_id t same) (own_tenant r digest id entries g (h r.tenant_id))
  | inr other ↦ other_tenant r digest id t entries other (h t)
]

-- A settlement that is stored leaves no more settled than has accrued.
settlement_covered :
    (r : CommissionRequest) (digest id : ℕ) (entries : List CommissionLedgerEntry)
    → Guarded r entries
    → r.event_type ≡ settlement
    → let entries' = entries ++ requested_entry r digest id ∷ [] in
      commission_sum settles r.tenant_id entries' ≤ℤ commission_sum accrues r.tenant_id entries'
unfolding commission_sum requested_entry
settlement_covered r digest id entries g is =
    let e = requested_entry r digest id in
    let a = sum_of-append (counted_cents settles r.tenant_id) entries e in
    let b = sum_of-append (counted_cents accrues r.tenant_id) entries e in
    let left =
      -ℤ_parts (sum_of (counted_cents accrues r.tenant_id) entries)
        (sum_of (counted_cents settles r.tenant_id) entries) in
    ground (arith, a, b, left, g.settled, is)

-- A new settlement that is recorded leaves no more settled, of its tenant, than has accrued.
pub record_new_covered :
    (r : CommissionRequest) (digest now : ℕ) (db : LedgerDb)
    → r.event_type ≡ settlement
    → Returned
        (λ w.
          commission_sum settles r.tenant_id w.2.commissions
          ≤ℤ commission_sum accrues r.tenant_id w.2.commissions)
        (record_new r digest now db)
unfolding record_new store_commission refresh_business_metrics financial_summary
record_new_covered r digest now db is =
    let P : CommissionLedgerEntry × Bool × LedgerDb → Type 0 = λ w.
      commission_sum settles r.tenant_id w.2.commissions
      ≤ℤ commission_sum accrues r.tenant_id w.2.commissions in
    Returned-raise_if P _ settlement_exceeds_accrual _ (λ s.
      Returned-raise_if P _ collection_exceeds_settlement _ (λ c.
        settlement_covered r digest db.next_id db.commissions
          (record { settled = s; collected = c }) is))

abbrev KeepsBalance : CommissionLedgerEntry × Bool × LedgerDb → Type 0
KeepsBalance w = IsBalanced w.2.commissions

record_new-IsBalanced :
    (r : CommissionRequest) (digest now : ℕ) (db : LedgerDb)
    → IsBalanced db.commissions
    → Returned KeepsBalance (record_new r digest now db)
unfolding record_new store_commission refresh_business_metrics financial_summary
record_new-IsBalanced r digest now db h =
    Returned-raise_if KeepsBalance _ settlement_exceeds_accrual _ (λ s.
      Returned-raise_if KeepsBalance _ collection_exceeds_settlement _ (λ c.
        requested_entry-IsBalanced r digest db.next_id db.commissions
          (record { settled = s; collected = c }) h))

-- Where no tenant has collected more than is settled, a commission event that is recorded keeps it so.
pub record_commission_event-IsBalanced :
    (hashes : Hashes) (r : CommissionRequest) (now : ℕ) (db : LedgerDb)
    → IsBalanced db.commissions
    → Returned (λ w. IsBalanced w.2.commissions) (record_commission_event hashes r now db)
unfolding record_commission_event record_known
record_commission_event-IsBalanced hashes r now db h =
    let digest =
      hashes.payload_digest
        (from_request r.event_type r.amount_cents r.reference (naive_utc r.occurred_at)) in
    Returned-raise_if KeepsBalance (not (is_supported r.event_type)) invalid_commission_event _
      (λ _. elim (Option-cases (find_commission db r.tenant_id r.idempotency_key)) [
        | inl fresh ↦ rw fresh (record_new-IsBalanced r digest now db h)
        | inr (existing, found) ↦ rw found (
            Returned-raise_if KeepsBalance (not (existing.payload_digest == digest))
              idempotency_conflict _ (λ _. h))
      ])
