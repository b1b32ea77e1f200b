-- ===== src/Repayment/Terms/Bounds.antt =====
-- What accepted terms promise.
use luheng_fulfillops_cloud.Base.{
  ℕ, ◌+◌, ◌*◌, ◌≤◌, ◌≡◌, false, List, [], ◌∷◌, arith, length, sum_by, ok, minute, date_of,
}
use luheng_fulfillops_cloud.Cases.{CaseRecord, CaseFinancialProfile, AssetPackage}
use luheng_fulfillops_cloud.Repayment.Rows.{ScheduleItem}
use luheng_fulfillops_cloud.Repayment.Terms.{minimum_amount, validate_terms}

-- The rounded share is no less than the exact share, and no more than any number of cents `x` that is no
-- less than the exact share.
pub minimum_amount_ceil :
    (amount bps x : ℕ)
    → amount * bps ≤ x * 10000
    → (amount * bps ≤ minimum_amount amount bps * 10000) × (minimum_amount amount bps ≤ x)
unfolding minimum_amount
minimum_amount_ceil amount bps x h = (omega arith, omega arith)

-- The first item of the schedule, as the checks read it.
abbrev pub FirstItem : List ScheduleItem → (ScheduleItem → Type 0) → Type 0
FirstItem [] P = ⊥
FirstItem (i ∷ _) P = P i

pub record Acceptable (case : CaseRecord) (profile : CaseFinancialProfile) (pack : AssetPackage)
    (total_cents down_payment_cents : ℕ) (schedule : List ScheduleItem) (signed_at now : ℕ)
    : Type 0 where
  pub not_blocked : case.blocked ≡ false
  pub within_claim : total_cents ≤ profile.claim_balance_cents
  pub settlement : profile.claim_balance_cents * pack.min_settlement_bps ≤ total_cents * 10000
  pub periods : length schedule ≤ pack.max_installments
  pub total : sum_by (λ (i : ScheduleItem). i.due_cents) schedule ≡ total_cents
  pub down : total_cents * pack.min_down_payment_bps ≤ down_payment_cents * 10000
  pub signed_by_now : signed_at ≤ now + 5 * minute
  pub mandate_from : profile.mandate_start ≤ date_of signed_at
  pub mandate_to : date_of signed_at ≤ profile.mandate_end
  pub first_item :
      FirstItem schedule
        (λ i. (i.due_cents ≡ down_payment_cents) × (date_of signed_at ≤ i.due_date))

-- Terms that pass the checks are those of a case that is not blocked, within the claim, no less than the
-- package's share of it, in no more periods than allowed, with installments that add up to the total and
-- a first one that is the down payment, no less than its share, and not before the signature, which is
-- within the mandate and no later than five minutes from now.
pub validate_terms-Acceptable :
    (case : CaseRecord) (profile : CaseFinancialProfile) (pack : AssetPackage) (total down : ℕ)
    (schedule : List ScheduleItem) (signed_at now : ℕ)
    → validate_terms case profile pack total down schedule signed_at now ≡ ok tt
    → Acceptable case profile pack total down schedule signed_at now
unfolding validate_terms minimum_amount
validate_terms-Acceptable case profile pack total down [] signed_at now h = absurd (ground arith)
validate_terms-Acceptable case profile pack total down (i ∷ schedule) signed_at now h = ground arith
