-- ===== src/Repayment/Terms.antt =====
-- The checks of a plan's terms: `_minimum_amount`, `_normalize_schedule` and `_validate_terms` of
-- backend/app/repayment_plans.py.
pub mod Bounds
pub mod Dates
use luheng_fulfillops_cloud.Base.{
  ℕ, zero, suc, ◌+◌, ◌*◌, ◌/◌, Bool, false, ◌&&◌, ◌||◌, not, List, [], ◌∷◌, map, ltb, leb, ◌==◌,
  if◌then◌else◌, length, any, sum_by, order_by, text_eq, Result, ok, err, ◌>>=◌, ◌>>◌, raise_if,
  minute, date_of,
}
use luheng_fulfillops_cloud.Cases.{CaseRecord, CaseFinancialProfile, AssetPackage}
use luheng_fulfillops_cloud.Repayment.Rows.{
  ScheduleItem, PlanCode, invalid_installment_sequence, invalid_installment_amount,
  invalid_due_dates, case_protected, claim_balance_missing, plan_exceeds_claim,
  settlement_below_policy, installments_exceed_policy, schedule_total_mismatch,
  down_payment_mismatch, down_payment_below_policy, signature_in_future, signature_outside_mandate,
  installment_before_signature, index_error,
}

unfoldable pub minimum_amount : ℕ → ℕ → ℕ
minimum_amount amount bps = (amount * bps + 9999) / 10000

-- `list(range(a, a + n))`
unfoldable pub range : ℕ → ℕ → List ℕ
range a zero = []
range a (suc n) = a ∷ range (a + 1) n

abbrev mem : ℕ → List ℕ → Bool
mem a [] = false
mem a (x ∷ xs) = a == x || mem a xs

-- `len(set(xs))`
unfoldable pub distinct : List ℕ → ℕ
distinct [] = 0
distinct (x ∷ xs) = (if mem x xs then 0 else 1) + distinct xs

abbrev pub due_dates : List ScheduleItem → List ℕ
due_dates = map (λ (i : ScheduleItem). i.due_date)

unfoldable pub normalize_schedule : List ScheduleItem → Result PlanCode (List ScheduleItem)
normalize_schedule normalized = do
  raise_if
      (not (
        text_eq (map (λ (i : ScheduleItem). i.installment_no) normalized)
          (range 1 (length normalized))))
      invalid_installment_sequence
  raise_if (any (λ (i : ScheduleItem). leb i.due_cents 0) normalized) invalid_installment_amount
  raise_if
      (not (text_eq (due_dates normalized) (order_by leb (due_dates normalized)))
        || not (distinct (due_dates normalized) == length (due_dates normalized)))
      invalid_due_dates
  ok normalized

-- The checks that read the first item of the schedule, in the order of the source; the two checks of
-- the signature stand between them.
check_first :
    CaseFinancialProfile
    → AssetPackage
    → ℕ
    → ℕ
    → List ScheduleItem
    → ℕ
    → ℕ
    → Result PlanCode (Unit {0})
check_first profile pack total_cents down_payment_cents [] signed_at now = err index_error
check_first profile pack total_cents down_payment_cents (i ∷ schedule) signed_at now = do
  raise_if (not (i.due_cents == down_payment_cents)) down_payment_mismatch
  raise_if (ltb down_payment_cents (minimum_amount total_cents pack.min_down_payment_bps))
      down_payment_below_policy
  raise_if (ltb (now + 5 * minute) signed_at) signature_in_future
  raise_if
      (not (
        leb profile.mandate_start (date_of signed_at)
        && leb (date_of signed_at) profile.mandate_end))
      signature_outside_mandate
  raise_if (ltb i.due_date (date_of signed_at)) installment_before_signature
  ok tt

unfoldable pub validate_terms :
    CaseRecord
    → CaseFinancialProfile
    → AssetPackage
    → ℕ
    → ℕ
    → List ScheduleItem
    → ℕ
    → ℕ
    → Result PlanCode (Unit {0})
unfolding check_first
validate_terms case profile pack total_cents down_payment_cents schedule signed_at now = do
  raise_if case.blocked case_protected
  raise_if (leb profile.claim_balance_cents 1) claim_balance_missing
  raise_if (ltb profile.claim_balance_cents total_cents) plan_exceeds_claim
  raise_if (ltb total_cents (minimum_amount profile.claim_balance_cents pack.min_settlement_bps))
      settlement_below_policy
  raise_if (ltb pack.max_installments (length schedule)) installments_exceed_policy
  raise_if (not (sum_by (λ (i : ScheduleItem). i.due_cents) schedule == total_cents))
      schedule_total_mismatch
  check_first profile pack total_cents down_payment_cents schedule signed_at now
