-- ===== src/Ledger/Rates.antt =====
-- The rate of a commission and the days on which a payment counts.
use luheng_fulfillops_cloud.Base.{
  ℕ, ◌+◌, ◌*◌, ◌/◌, ◌≤◌, ◌<◌, ◌≡◌, inl, inr, ◌⊎◌, ◌↔◌, true, arith, date_of, ltb, Bool-cases,
}
use luheng_fulfillops_cloud.Base.Int.{ℤ, abs, pos_part, neg_part, neg_parts}
use luheng_fulfillops_cloud.Cases.{CaseFinancialProfile}
use luheng_fulfillops_cloud.Ledger.Terms.{commission_cents, tail_valid, payment_eligibility}
use native.Mathlib.Nat.{mul-le-mul_left}

-- What a commission is of its amount: within half a cent of the exact share, with the amount's sign and
-- no more than the amount.
pub record IsCommission (amount : ℤ) (rate_bps : ℕ) (c : ℤ) : Type 0 where
  pub not_above : abs c * 10000 ≤ abs amount * rate_bps + 5000
  pub not_below : abs amount * rate_bps < abs c * 10000 + 5000
  pub no_gain : pos_part c ≤ pos_part amount
  pub no_loss : neg_part c ≤ neg_part amount

-- A commission at a rate of at most 10000 basis points is within half a cent of the exact share, rounded
-- up in size at half a cent; it has the sign of the amount, or is nothing, and is no larger.
pub commission_cents-IsCommission :
    (amount : ℤ) (rate_bps : ℕ)
    → rate_bps ≤ 10000
    → IsCommission amount rate_bps (commission_cents amount rate_bps)
unfolding commission_cents
commission_cents-IsCommission amount rate_bps h =
    let (positive, exact) = neg_parts ((abs amount * rate_bps + 5000) / 10000) in
    let most : abs amount * rate_bps ≤ abs amount * 10000 = mul-le-mul_left (abs amount) h in
    elim (Bool-cases (ltb 0 (neg_part amount))) [
      | inl below ↦ rw below (record {
        not_above = omega (arith, positive, exact);
        not_below = omega (arith, positive, exact);
        no_gain = omega (arith, positive);
        no_loss = ground (arith, below, positive, exact, most);
      })
      | inr above ↦ rw above (record {
        not_above = omega arith;
        not_below = omega arith;
        no_gain = ground (arith, above, most);
        no_loss = omega arith;
      })
    ]

-- A payment counts for commission exactly if it is booked no earlier than the mandate begins, and either
-- by its end or on a plan that is marked as eligible, was
-- signed by that end and has a last due date that has not passed.
pub payment_eligibility_iff :
    (profile : CaseFinancialProfile) (occurred_at : ℕ)
    → ((payment_eligibility profile occurred_at).0 ≡ true) ↔ (
        (profile.mandate_start ≤ date_of occurred_at)
        × ((date_of occurred_at ≤ profile.mandate_end)
            ⊎ (tail_valid profile (date_of occurred_at) ≡ true)))
unfolding payment_eligibility
payment_eligibility_iff profile occurred_at = (λ h. ground arith, λ h. ground arith)
