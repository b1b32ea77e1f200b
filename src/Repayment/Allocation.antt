-- ===== src/Repayment/Allocation.antt =====
-- `allocate_recovery_to_plan` of backend/app/repayment_plans.py. `id_digest` is the hash that an
-- allocation's number is made of.
pub mod Loops
pub mod Refunds
pub mod Replay
use luheng_fulfillops_cloud.Base.{
  ℕ, ◌+◌, ◌-◌, min, ◌&&◌, Bool, true, false, Option, none, some, List, [], ◌∷◌, ◌++◌, ◌==◌, ltb,
  leb, if◌then◌else◌, length, first, select, least, order_by, map, text_eq, Text, option_eq,
  is_some,
}
use luheng_fulfillops_cloud.Base.Int.{ℤ, pos, neg, ◌+ℤ◌, pos_part, neg_part, abs, ltb_ℤ}
use luheng_fulfillops_cloud.Repayment.Rows.{
  RepaymentDb, RepaymentInstallment, RepaymentPlan, RepaymentAllocation, RecoveryLedgerEntry,
  spread_over_plan, is_active_plan, payment, refund, of_case,
}
use luheng_fulfillops_cloud.Repayment.Context.{installments_of}
use luheng_fulfillops_cloud.Repayment.Sync.{sum_amounts, allocation_label, sync_plan_state}
use luheng_fulfillops_cloud.Repayment.Lookup.{
  allocations_of, originals_of, plan_for, refundable, take_back,
}

-- What a loop over installments or over earlier allocations leaves.
pub record Spread : Type 0 where
  pub rows : List RepaymentInstallment
  pub allocations : List RepaymentAllocation
  pub remaining : ℕ

-- `installment_order.get(row.installment_row_id, 0)`
abbrev order_no : List RepaymentInstallment → RepaymentAllocation → ℕ
order_no rows a = elim (first (λ (r : RepaymentInstallment). r.id == a.installment_row_id) rows) [
  | none ↦ 0
  | some r ↦ r.installment_no
]

-- Nothing is written where nothing has been allocated.
unfoldable pub store_spread :
    RepaymentDb
    → RecoveryLedgerEntry
    → RepaymentPlan
    → ℕ
    → List RepaymentInstallment
    → ℕ
    → List RepaymentAllocation
    → RecoveryLedgerEntry × List RepaymentAllocation × RepaymentDb
store_spread db recovery plan now rows remaining [] = (recovery, [], db)
store_spread db recovery plan now rows remaining (a ∷ rest) = (
  record recovery { allocation = spread_over_plan (allocation_label plan (a ∷ rest) remaining) },
  a ∷ rest,
  sync_plan_state plan rows now (record db {
    allocations = db.allocations ++ a ∷ rest;
    next_id = db.next_id + length (a ∷ rest);
  }),
)

module _ (id_digest : Text → Text → ℕ) where
  unfoldable pub new_allocation :
      RecoveryLedgerEntry
      → RepaymentPlan
      → RepaymentInstallment
      → ℤ
      → Option ℕ
      → ℕ
      → RepaymentAllocation
  new_allocation recovery plan row amount source id = record {
    id = id;
    tenant_id = recovery.tenant_id;
    allocation_id = id_digest recovery.entry_id row.installment_id;
    recovery_entry_id = recovery.entry_id;
    plan_row_id = plan.id;
    installment_row_id = row.id;
    amount_cents = amount;
    source_allocation_id = source;
  }

  -- The loop of a payment: each installment, in order, takes what it still lacks.
  unfoldable pub spread_payment :
      RecoveryLedgerEntry → RepaymentPlan → ℕ → ℕ → List RepaymentInstallment → Spread
  unfolding new_allocation
  spread_payment recovery plan next_id remaining [] = record {
    rows = [];
    allocations = [];
    remaining = remaining;
  }
  spread_payment recovery plan next_id remaining (row ∷ rows) =
      let amount : ℕ = min remaining (row.due_cents - row.paid_cents) in
      let skip : Spread = spread_payment recovery plan next_id remaining rows in
      let rest : Spread = spread_payment recovery plan (next_id + 1) (remaining - amount) rows in
      let row' : RepaymentInstallment = record row {
        paid_cents = row.paid_cents + amount;
        last_payment_at = some recovery.booked_at;
      } in
      let allocation : RepaymentAllocation =
        new_allocation recovery plan row (pos amount) none next_id in
      if amount == 0
      then record {
        rows = row ∷ skip.rows;
        allocations = skip.allocations;
        remaining = skip.remaining;
      }
      else if remaining - amount == 0
      then record { rows = row' ∷ rows; allocations = allocation ∷ []; remaining = 0 }
      else record {
        rows = row' ∷ rest.rows;
        allocations = allocation ∷ rest.allocations;
        remaining = rest.remaining;
      }

  -- The loop of a refund: each allocation of the payment, the latest installment first, gives back what
  -- is left of it. `remaining` of the result is what is still needed.
  unfoldable pub spread_refund :
      RecoveryLedgerEntry
      → RepaymentPlan
      → List RepaymentAllocation
      → ℕ
      → ℕ
      → List RepaymentInstallment
      → List RepaymentAllocation
      → Spread
  unfolding new_allocation take_back
  spread_refund recovery plan table next_id needed rows [] = record {
    rows = rows;
    allocations = [];
    remaining = needed;
  }
  spread_refund recovery plan table next_id needed rows (original ∷ originals) =
      let amount : ℕ = min needed (refundable table recovery.tenant_id original) in
      let skip : Spread = spread_refund recovery plan table next_id needed rows originals in
      let rows' : List RepaymentInstallment =
        map (take_back original.installment_row_id amount recovery.booked_at) rows in
      let rest : Spread =
        spread_refund recovery plan table (next_id + 1) (needed - amount) rows' originals in
      if amount == 0
      then skip
      else elim (first (λ (r : RepaymentInstallment). r.id == original.installment_row_id) rows) [
        | none ↦ skip
        | some row ↦
            let allocation : RepaymentAllocation =
              new_allocation recovery plan row (neg amount) (some original.id) next_id in
            if needed - amount == 0
            then record { rows = rows'; allocations = allocation ∷ []; remaining = 0 }
            else record {
              rows = rest.rows;
              allocations = allocation ∷ rest.allocations;
              remaining = rest.remaining;
            }
      ]

  -- The loop that the event calls for.
  unfoldable pub spread :
      RepaymentDb → RecoveryLedgerEntry → RepaymentPlan → List RepaymentInstallment → Spread
  spread db recovery plan rows =
      let nothing : Spread = record {
        rows = rows;
        allocations = [];
        remaining = abs recovery.amount_cents;
      } in
      let originals : List RepaymentAllocation =
        order_by (λ a b. leb (order_no rows b) (order_no rows a)) (originals_of db recovery) in
      let refunded : Spread =
        spread_refund recovery plan db.allocations db.next_id (neg_part recovery.amount_cents) rows
          originals in
      elim recovery.event_type [
        | payment ↦
            if ltb 0 (pos_part recovery.amount_cents)
            then spread_payment recovery plan db.next_id (pos_part recovery.amount_cents) rows
            else nothing
        | refund ↦
            if ltb 0 (neg_part recovery.amount_cents) && is_some recovery.original_entry_id
            then refunded
            else nothing
      ]

  unfoldable pub allocate_recovery_to_plan :
      RecoveryLedgerEntry
      → ℕ
      → RepaymentDb
      → RecoveryLedgerEntry × List RepaymentAllocation × RepaymentDb
  allocate_recovery_to_plan recovery now db =
      elim (allocations_of db recovery.tenant_id recovery.entry_id) [
        | a ∷ rest ↦ (recovery, a ∷ rest, db)
        | [] ↦ elim (plan_for db recovery) [
          | none ↦ (recovery, [], db)
          | some plan ↦
              let s : Spread = spread db recovery plan (installments_of db plan) in
              store_spread db recovery plan now s.rows s.remaining s.allocations
        ]
      ]
