-- ===== src/Repayment/Lookup.antt =====
-- What an allocation looks up in backend/app/repayment_plans.py: what is left of earlier allocations, and the
-- plan that a recovery goes to.
use luheng_fulfillops_cloud.Base.{
  ℕ, ◌-◌, ◌&&◌, Bool, true, false, Option, none, some, List, [], ◌∷◌, ◌==◌, leb, if◌then◌else◌,
  first, select, least, text_eq, Text, option_eq,
}
use luheng_fulfillops_cloud.Base.Int.{pos, ◌+ℤ◌, pos_part, ltb_ℤ}
use luheng_fulfillops_cloud.Repayment.Rows.{
  RepaymentDb, RepaymentInstallment, RepaymentPlan, RepaymentAllocation, RecoveryLedgerEntry,
  is_active_plan, payment, refund, of_case,
}
use luheng_fulfillops_cloud.Repayment.Sync.{sum_amounts}

-- `max(0, original.amount_cents + sum(prior reversals))`
unfoldable pub refundable : List RepaymentAllocation → ℕ → RepaymentAllocation → ℕ
unfolding sum_amounts
refundable table tenant_id original = pos_part (
    original.amount_cents
    +ℤ sum_amounts (
        select
          (λ (a : RepaymentAllocation).
            a.tenant_id == tenant_id && option_eq a.source_allocation_id (some original.id))
          table))

unfoldable pub take_back : ℕ → ℕ → ℕ → RepaymentInstallment → RepaymentInstallment
take_back id amount booked_at row =
    if row.id == id
    then record row { paid_cents = row.paid_cents - amount; last_payment_at = some booked_at }
    else row

abbrev pub of_recovery : ℕ → Text → RepaymentAllocation → Bool
of_recovery tenant_id entry_id a = a.tenant_id == tenant_id && text_eq a.recovery_entry_id entry_id

unfoldable pub allocations_of : RepaymentDb → ℕ → Text → List RepaymentAllocation
allocations_of db tenant_id entry_id = select (of_recovery tenant_id entry_id) db.allocations

-- The positive allocations of the payment that a refund names, none for a payment.
unfoldable pub originals_of : RepaymentDb → RecoveryLedgerEntry → List RepaymentAllocation
unfolding allocations_of
originals_of db recovery = elim recovery.event_type [
  | payment ↦ []
  | refund ↦ elim recovery.original_entry_id [
    | none ↦ []
    | some entry_id ↦
        select (λ (a : RepaymentAllocation). ltb_ℤ (pos 0) a.amount_cents)
          (allocations_of db recovery.tenant_id entry_id)
  ]
]

-- `ORDER BY activated_at DESC`
abbrev pub newer : RepaymentPlan → RepaymentPlan → Bool
newer a b = elim a.activated_at [
  | none ↦ true
  | some t ↦ elim b.activated_at [ none ↦ false | some u ↦ leb u t ]
]

unfoldable pub current_plan : RepaymentDb → RecoveryLedgerEntry → Option RepaymentPlan
current_plan db recovery = least newer (
    select
      (λ (p : RepaymentPlan).
        of_case recovery.tenant_id recovery.case_id p.tenant_id p.case_id
        && is_active_plan p.status
        && leb p.signed_at recovery.booked_at)
      db.plans)

plan_of_originals : RepaymentDb → List RepaymentAllocation → Option RepaymentPlan
plan_of_originals db [] = none
plan_of_originals db (a ∷ _) = first (λ (p : RepaymentPlan). p.id == a.plan_row_id) db.plans

-- The plan that a recovery goes to: for a refund that names its payment, the payment's plan.
unfoldable pub plan_for : RepaymentDb → RecoveryLedgerEntry → Option RepaymentPlan
unfolding plan_of_originals
plan_for db recovery = elim recovery.event_type [
  | payment ↦ current_plan db recovery
  | refund ↦ elim recovery.original_entry_id [
    | none ↦ current_plan db recovery
    | some _ ↦ plan_of_originals db (originals_of db recovery)
  ]
]
