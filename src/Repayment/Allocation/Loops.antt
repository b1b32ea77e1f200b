-- ===== src/Repayment/Allocation/Loops.antt =====
-- The loop that spreads a payment over the installments of a plan.
use luheng_fulfillops_cloud.Base.{
  ℕ, ◌+◌, ◌-◌, ◌≤◌, ◌<◌, min, ◌≡◌, refl, ◌⊎◌, inl, inr, List, [], ◌∷◌, arith, All, sum_by, Text,
  Bool-cases, ◌==◌,
}
use luheng_fulfillops_cloud.Base.Int.{pos_part}
use luheng_fulfillops_cloud.Repayment.Rows.{
  RepaymentPlan, RepaymentInstallment, RepaymentAllocation, RecoveryLedgerEntry,
}
use luheng_fulfillops_cloud.Repayment.Sync.{total_paid}
use luheng_fulfillops_cloud.Repayment.Allocation.{Spread, spread_payment}

-- The cents that an installment lacks, and that all of them lack.
abbrev pub lacking : RepaymentInstallment → ℕ
lacking r = r.due_cents - r.paid_cents

-- No installment has been paid more than is due.
abbrev pub WithinDue : List RepaymentInstallment → Type 0
WithinDue = All (λ (r : RepaymentInstallment). r.paid_cents ≤ r.due_cents)

-- Money reaches an installment only when those before it are paid in full: a first part of the rows is
-- full afterwards, the row after that may have changed, and the rest stays as it was.
abbrev pub InOrder : List RepaymentInstallment → List RepaymentInstallment → Type 0
InOrder [] rows' = rows' ≡ []
InOrder (r ∷ rows) [] = ⊥
InOrder (r ∷ rows) (r' ∷ rows') =
    ((r'.due_cents ≡ r.due_cents) × (r.due_cents ≤ r'.paid_cents) × InOrder rows rows')
    ⊎ (rows' ≡ rows)

module _ (id_digest : Text → Text → ℕ) (recovery : RecoveryLedgerEntry) (plan : RepaymentPlan) where
  abbrev pub run : ℕ → ℕ → List RepaymentInstallment → Spread
  run = spread_payment id_digest recovery plan

  -- What is left over is what the installments do not lack.
  pub remaining-spread_payment :
      (id remaining : ℕ) (rows : List RepaymentInstallment)
      → (run id remaining rows).remaining ≡ remaining - sum_by lacking rows
  unfolding spread_payment
  remaining-spread_payment id remaining [] = omega arith
  remaining-spread_payment id remaining (r ∷ rows) = ground (
    arith,
    remaining-spread_payment id remaining rows,
    remaining-spread_payment (id + 1) (remaining - min remaining (lacking r)) rows,
  )

  -- The loop neither makes nor loses money: what the installments hold afterwards and what is left over
  -- are what they held before and the payment.
  pub total_paid-spread_payment :
      (id remaining : ℕ) (rows : List RepaymentInstallment)
      → total_paid (run id remaining rows).rows + (run id remaining rows).remaining
        ≡ total_paid rows + remaining
  unfolding spread_payment
  total_paid-spread_payment id remaining [] = omega arith
  total_paid-spread_payment id remaining (r ∷ rows) = ground (
    arith,
    total_paid-spread_payment id remaining rows,
    total_paid-spread_payment (id + 1) (remaining - min remaining (lacking r)) rows,
  )

  -- The allocations and what is left over make up the payment.
  pub allocated-spread_payment :
      (id remaining : ℕ) (rows : List RepaymentInstallment)
      → sum_by
            (λ (a : RepaymentAllocation). pos_part a.amount_cents)
            (run id remaining rows).allocations
          + (run id remaining rows).remaining
        ≡ remaining
  unfolding spread_payment
  allocated-spread_payment id remaining [] = omega arith
  allocated-spread_payment id remaining (r ∷ rows) = ground (
    arith,
    allocated-spread_payment id remaining rows,
    allocated-spread_payment (id + 1) (remaining - min remaining (lacking r)) rows,
  )

  -- Where no installment has been paid more than is due, none is afterwards.
  pub spread_payment-WithinDue :
      (id remaining : ℕ) (rows : List RepaymentInstallment)
      → WithinDue rows
      → WithinDue (run id remaining rows).rows
  unfolding spread_payment
  spread_payment-WithinDue id remaining [] h = tt
  spread_payment-WithinDue id remaining (r ∷ rows) h = ground (
    arith,
    spread_payment-WithinDue id remaining rows h.1,
    spread_payment-WithinDue (id + 1) (remaining - min remaining (lacking r)) rows h.1,
  )

  -- A payment of more than nothing fills the installments in order: a first part of them is paid in
  -- full afterwards, with the amounts due kept, the next one may have changed, and all after it are as
  -- they were.
  pub spread_payment-InOrder :
      (id remaining : ℕ) (rows : List RepaymentInstallment)
      → 0 < remaining
      → InOrder rows (run id remaining rows).rows
  unfolding spread_payment
  spread_payment-InOrder id remaining [] h = refl
  spread_payment-InOrder id remaining (r ∷ rows) h =
      elim (Bool-cases (min remaining (lacking r) == 0)) [
        | inl full ↦ rw full (inl (refl, ground arith, spread_payment-InOrder id remaining rows h))
        | inr takes ↦ rw takes (elim (Bool-cases (remaining - min remaining (lacking r) == 0)) [
          | inl spent ↦ rw spent (inr refl)
          | inr more ↦ rw more (
              inl (
                refl,
                ground arith,
                spread_payment-InOrder (id + 1) (remaining - min remaining (lacking r)) rows
                    (ground arith),
              ))
        ])
      ]
