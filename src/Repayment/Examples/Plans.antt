-- ===== src/Repayment/Examples/Plans.antt =====
-- Runs of the proposal and the review of a plan, and the theorems at them.
use luheng_fulfillops_cloud.Base.{
  ℕ, ◌+◌, ◌*◌, ◌≡◌, refl, arith, codes, ok, err, day, hour, order_by, strip, upper, lower, text_eq,
}
use luheng_fulfillops_cloud.Cases.{approve}
use luheng_fulfillops_cloud.Repayment.Rows.{
  RepaymentDb, RepaymentPlan, settlement_below_policy, maker_checker_conflict,
}
use luheng_fulfillops_cloud.Repayment.Context.{
  find_case, find_profile, find_package, plan_context, installments_of,
}
use luheng_fulfillops_cloud.Repayment.Terms.{
  minimum_amount, range, distinct, normalize_schedule, validate_terms,
}
use luheng_fulfillops_cloud.Repayment.Terms.Bounds.{Acceptable, validate_terms-Acceptable}
use luheng_fulfillops_cloud.Repayment.Terms.Dates.{WellFormed, normalize_schedule-WellFormed}
use luheng_fulfillops_cloud.Repayment.Proposal.{
  snapshot_of, evidence_of, new_plan, new_installments, find_plan, find_in_progress, add_plan,
  settle_proposal, create_plan_proposal,
}
use luheng_fulfillops_cloud.Repayment.Proposal.Replay.{create_plan_proposal_idem}
use luheng_fulfillops_cloud.Repayment.Decision.{
  reviewed_plan, find_rival, approve_plan, carry_out, finish_review, decide_plan,
}
use luheng_fulfillops_cloud.Repayment.Decision.Review.{Reviewed, decide_plan-Reviewed}
use luheng_fulfillops_cloud.Repayment.Unique.{
  IsExclusive, IsRow, create_plan_proposal-IsExclusive, decide_plan-IsExclusive,
}
use luheng_fulfillops_cloud.Repayment.Examples.{
  case_one, profile_one, package_one, tables, two_periods, request, evidence_hash, proposed_at,
  plan_in, tables_in,
}

abbrev no_plan : RepaymentPlan
no_plan =
    new_plan
      (evidence_of (record { case = case_one; profile = profile_one; pack = package_one }) request)
      0 0 0 0

abbrev plan_one : RepaymentPlan
plan_one = plan_in no_plan (create_plan_proposal evidence_hash request proposed_at tables)

abbrev pub tables_one : RepaymentDb
tables_one = tables_in (create_plan_proposal evidence_hash request proposed_at tables)

request_accepted :
    create_plan_proposal evidence_hash request proposed_at tables ≡ ok (plan_one, tables_one)
unfolding create_plan_proposal settle_proposal normalize_schedule plan_context find_case
    find_profile find_package validate_terms minimum_amount range distinct order_by strip upper
    lower text_eq evidence_of snapshot_of find_plan find_in_progress new_plan
request_accepted = refl

minimum_amount_rounds_up : minimum_amount 999 5005 ≡ 500
unfolding minimum_amount
minimum_amount_rounds_up = refl

two_periods-normalized : normalize_schedule two_periods ≡ ok two_periods
unfolding normalize_schedule range distinct order_by text_eq
two_periods-normalized = refl

normalize_schedule-WellFormed_example : (two_periods ≡ two_periods) × WellFormed two_periods
normalize_schedule-WellFormed_example =
    normalize_schedule-WellFormed two_periods two_periods-normalized

terms-valid :
    validate_terms case_one profile_one package_one 1000 400 two_periods (50 * day) proposed_at
    ≡ ok tt
unfolding validate_terms minimum_amount
terms-valid = refl

validate_terms-Acceptable_example :
    Acceptable case_one profile_one package_one 1000 400 two_periods (50 * day) proposed_at
validate_terms-Acceptable_example =
    validate_terms-Acceptable case_one profile_one package_one 1000 400 two_periods (50 * day)
      proposed_at terms-valid

-- 799 cents are less than the 40% of 2000 that the package asks for.
terms_too_low :
    validate_terms case_one profile_one package_one 799 400 two_periods (50 * day) proposed_at
    ≡ err settlement_below_policy
unfolding validate_terms minimum_amount
terms_too_low = refl

create_plan_proposal_idem_example :
    create_plan_proposal evidence_hash request (proposed_at + hour) tables_one
    ≡ ok (plan_one, tables_one)
create_plan_proposal_idem_example =
    create_plan_proposal_idem evidence_hash request proposed_at (proposed_at + hour) tables
      (omega arith) request_accepted

tables-IsExclusive : IsExclusive tables.plans
tables-IsExclusive t c = omega arith

create_plan_proposal-IsExclusive_example : IsExclusive tables_one.plans
create_plan_proposal-IsExclusive_example =
    create_plan_proposal-IsExclusive evidence_hash request proposed_at tables request_accepted
      tables-IsExclusive

tables_one-IsExclusive : IsExclusive tables_one.plans
tables_one-IsExclusive t c =
    create_plan_proposal-IsExclusive evidence_hash request proposed_at tables request_accepted
      tables-IsExclusive t c

abbrev pub approved_at : ℕ
approved_at = 61 * day

abbrev pub plan_approved : RepaymentPlan
plan_approved =
    plan_in no_plan (decide_plan plan_one approve (codes "fine") 1 12 approved_at tables_one)

abbrev pub tables_approved : RepaymentDb
tables_approved =
    tables_in (decide_plan plan_one approve (codes "fine") 1 12 approved_at tables_one)

plan_one-approved :
    decide_plan plan_one approve (codes "fine") 1 12 approved_at tables_one
    ≡ ok (plan_approved, tables_approved)
unfolding decide_plan create_plan_proposal settle_proposal normalize_schedule plan_context find_case
    find_profile find_package validate_terms minimum_amount range distinct order_by strip upper
    lower text_eq evidence_of snapshot_of find_plan find_in_progress new_plan finish_review
    reviewed_plan carry_out approve_plan find_rival installments_of add_plan new_installments
plan_one-approved = refl

-- The one who proposed the plan cannot review it.
plan_one_same_person :
    decide_plan plan_one approve (codes "fine") 1 11 approved_at tables_one
    ≡ err maker_checker_conflict
unfolding decide_plan create_plan_proposal settle_proposal normalize_schedule plan_context find_case
    find_profile find_package validate_terms minimum_amount range distinct order_by strip upper
    lower text_eq evidence_of snapshot_of find_plan find_in_progress new_plan
plan_one_same_person = refl

decide_plan-Reviewed_example :
    Reviewed plan_one approve
      (codes "fine")
      1
      12
      approved_at
      tables_one
      plan_approved
      tables_approved
decide_plan-Reviewed_example =
    decide_plan-Reviewed plan_one approve (codes "fine") 1 12 approved_at tables_one
      plan_one-approved

plan_one-IsRow : IsRow plan_one tables_one.plans
unfolding create_plan_proposal settle_proposal normalize_schedule plan_context find_case
    find_profile find_package validate_terms minimum_amount range distinct order_by strip upper
    lower text_eq evidence_of snapshot_of find_plan find_in_progress new_plan add_plan
plan_one-IsRow = (λ _. refl, tt)

decide_plan-IsExclusive_example : IsExclusive tables_approved.plans
decide_plan-IsExclusive_example =
    decide_plan-IsExclusive plan_one approve (codes "fine") 1 12 approved_at tables_one
      plan_one-approved plan_one-IsRow tables_one-IsExclusive
