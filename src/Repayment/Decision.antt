-- ===== src/Repayment/Decision.antt =====
-- `decide_plan` of backend/app/repayment_plans.py. The plan is the row that the route has read; what
-- is written to it before a raise is lost with the session.
pub mod Review
pub mod Effects
use luheng_fulfillops_cloud.Base.{
  ℕ, ◌+◌, ◌&&◌, Bool, true, false, not, Option, none, some, List, [], ◌∷◌, ◌++◌, ◌==◌, first,
  update, map, strip, Text, date_of, Result, ok, ◌>>=◌, ◌>>◌, raise_if, is_some,
}
use luheng_fulfillops_cloud.Cases.{
  CaseRecord, CaseFinancialProfile, performing, Decision, approve, is_known,
}
use luheng_fulfillops_cloud.Repayment.Rows.{
  RepaymentDb, RepaymentInstallment, RepaymentPlan, PlanCode, ScheduleItem, PlanStatus,
  pending_review, active, rejected, is_active_plan, decided, plan_not_pending,
  plan_version_conflict, maker_checker_conflict, invalid_decision, policy_version_conflict,
  active_plan_exists, of_case,
}
use luheng_fulfillops_cloud.Repayment.Context.{PlanContext, plan_context, installments_of}
use luheng_fulfillops_cloud.Repayment.Terms.{validate_terms}

abbrev pub is_pending : PlanStatus → Bool
is_pending pending_review = true
is_pending _ = false

abbrev item_of : RepaymentInstallment → ScheduleItem
item_of r = record {
  installment_no = r.installment_no;
  due_date = r.due_date;
  due_cents = r.due_cents;
}

-- `rows[-1].due_date`
abbrev pub last_due : List RepaymentInstallment → Option ℕ
last_due [] = none
last_due (r ∷ []) = some r.due_date
last_due (_ ∷ r ∷ rows) = last_due (r ∷ rows)

-- Another plan of the case that is active or completed.
abbrev pub rivals : RepaymentPlan → RepaymentPlan → Bool
rivals plan p =
    of_case plan.tenant_id plan.case_id p.tenant_id p.case_id
    && is_active_plan p.status
    && not (p.id == plan.id)

unfoldable pub write_plan : RepaymentPlan → List RepaymentPlan → List RepaymentPlan
write_plan plan = update (λ (p : RepaymentPlan). p.id == plan.id) (λ _. plan)

unfoldable pub reviewed_plan : RepaymentPlan → Text → ℕ → ℕ → RepaymentPlan
reviewed_plan plan review_note actor_id now = record plan {
  reviewed_by = some actor_id;
  reviewed_at = some now;
  review_note = some (strip review_note);
  version = plan.version + 1;
}

unfoldable pub audit_decision : Decision → RepaymentPlan → ℕ → RepaymentDb → RepaymentDb
audit_decision decision plan actor_id db = record db {
  plan_audit =
      db.plan_audit
      ++ decided plan.tenant_id actor_id plan.id decision plan.plan_id plan.case_id plan.version
          plan.evidence_digest
        ∷ [];
}

-- The writes of an approval: to the plan, its case and its financial profile.
unfoldable pub activate :
    RepaymentPlan → List RepaymentInstallment → ℕ → RepaymentDb → RepaymentPlan × RepaymentDb
activate plan rows now db =
    let plan' : RepaymentPlan = record plan { status = active; activated_at = some now } in
    (
      plan',
      record db {
        plans = write_plan plan' db.plans;
        cases =
            update (λ (c : CaseRecord). of_case plan.tenant_id plan.case_id c.tenant_id c.case_id)
              (λ (c : CaseRecord). record c { has_signed_plan = true; status = performing })
              db.cases;
        profiles =
            update
              (λ (p : CaseFinancialProfile).
                of_case plan.tenant_id plan.case_id p.tenant_id p.case_id)
              (λ (p : CaseFinancialProfile). record p {
                signed_plan_at = some (date_of plan.signed_at);
                signed_plan_last_due = last_due rows;
                signed_plan_tail_eligible = true;
              })
              db.profiles;
      },
    )

unfoldable pub decline : RepaymentPlan → RepaymentDb → RepaymentPlan × RepaymentDb
decline plan db =
    let plan' : RepaymentPlan = record plan { status = rejected } in
    (plan', record db { plans = write_plan plan' db.plans })

unfoldable pub find_rival : RepaymentDb → RepaymentPlan → Option RepaymentPlan
find_rival db plan = first (rivals plan) db.plans

unfoldable pub approve_plan :
    RepaymentPlan → PlanContext → ℕ → RepaymentDb → Result PlanCode (RepaymentPlan × RepaymentDb)
approve_plan plan c now db = do
  let rows = installments_of db plan
  raise_if (not (c.pack.policy_version == plan.policy_version)) policy_version_conflict
  validate_terms c.case c.profile c.pack plan.total_cents plan.down_payment_cents (map item_of rows)
      plan.signed_at now
  raise_if (is_some (find_rival db plan)) active_plan_exists
  ok (activate plan rows now db)

unfoldable pub carry_out :
    Decision
    → RepaymentPlan
    → PlanContext
    → ℕ
    → RepaymentDb
    → Result PlanCode (RepaymentPlan × RepaymentDb)
carry_out approve plan c now db = approve_plan plan c now db
carry_out _ plan c now db = ok (decline plan db)

-- What follows the four guards.
unfoldable pub finish_review :
    RepaymentPlan → Decision → ℕ → ℕ → RepaymentDb → Result PlanCode (RepaymentPlan × RepaymentDb)
finish_review plan decision actor_id now db = do
  c ← plan_context db plan.tenant_id plan.case_id
  (plan', db') ← carry_out decision plan c now db
  ok (plan', audit_decision decision plan' actor_id db')

unfoldable pub decide_plan :
    RepaymentPlan
    → Decision
    → Text
    → ℕ
    → ℕ
    → ℕ
    → RepaymentDb
    → Result PlanCode (RepaymentPlan × RepaymentDb)
decide_plan plan decision review_note expected_version actor_id now db = do
  raise_if (not (is_pending plan.status)) plan_not_pending
  raise_if (not (plan.version == expected_version)) plan_version_conflict
  raise_if (plan.proposed_by == actor_id) maker_checker_conflict
  raise_if (not (is_known decision)) invalid_decision
  finish_review (reviewed_plan plan review_note actor_id now) decision actor_id now db
