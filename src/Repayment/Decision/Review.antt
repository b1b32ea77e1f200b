-- ===== src/Repayment/Decision/Review.antt =====
-- What a review of a plan that returned has checked and written.
use luheng_fulfillops_cloud.Base.{
  sym, Result, ℕ, ◌>>◌, ◌==◌, ◌≡◌, refl, ◌≢◌, subst, Bool, true, false, not, map, arith, ok,
  raise_if-eq_ok, >>=-eq_ok, >>-eq_ok, raise_if, Text, ==→eq, is_some,
}
use luheng_fulfillops_cloud.Cases.{Decision, approve, reject, unknown, is_known}
use luheng_fulfillops_cloud.Repayment.Rows.{
  PlanCode, plan_not_pending, plan_version_conflict, maker_checker_conflict, invalid_decision,
  RepaymentDb, RepaymentPlan, PlanStatus, pending_review, active, completed, rejected,
}
use luheng_fulfillops_cloud.Repayment.Context.{PlanContext, plan_context, installments_of}
use luheng_fulfillops_cloud.Repayment.Terms.Bounds.{Acceptable, validate_terms-Acceptable}
use luheng_fulfillops_cloud.Repayment.Decision.{
  decide_plan, finish_review, is_pending, reviewed_plan, carry_out, approve_plan, activate,
  find_rival, item_of, audit_decision,
}
use luheng_fulfillops_cloud.Repayment.Decision.Effects.{Written, outcome, outcome-Written}

not-false : (b : Bool) → not b ≡ false → b ≡ true
not-false true e = refl
not-false false e = cc

is_pending-eq : (s : PlanStatus) → is_pending s ≡ true → s ≡ pending_review
is_pending-eq pending_review e = refl
is_pending-eq active e = absurd (cc e)
is_pending-eq completed e = absurd (cc e)
is_pending-eq rejected e = absurd (cc e)

-- What an approval has checked anew, against the tables at the time of the review.
pub record Approvable (plan : RepaymentPlan) (c : PlanContext) (now : ℕ) (db : RepaymentDb)
    : Type 0 where
  pub same_policy : c.pack.policy_version ≡ plan.policy_version
  pub terms :
      Acceptable c.case c.profile c.pack plan.total_cents plan.down_payment_cents
        (map item_of (installments_of db plan))
        plan.signed_at
        now
  pub alone : is_some (find_rival db plan) ≡ false

-- What the decision has checked: for an approval all of the above.
abbrev pub Checked : Decision → RepaymentPlan → PlanContext → ℕ → RepaymentDb → Type 0
Checked approve plan c now db = Approvable plan c now db
Checked _ plan c now db = Unit

pub record Reviewed (plan : RepaymentPlan) (decision : Decision) (note : Text)
    (expected_version actor_id now : ℕ) (db : RepaymentDb) (plan' : RepaymentPlan)
    (db' : RepaymentDb) : Type 0 where
  pub was_pending : plan.status ≡ pending_review
  pub current : plan.version ≡ expected_version
  pub two_people : plan.proposed_by ≢ actor_id
  pub context : PlanContext
  pub found : plan_context db plan.tenant_id plan.case_id ≡ ok context
  pub checked : Checked decision (reviewed_plan plan note actor_id now) context now db
  pub exact :
      let (p, d) =
        outcome decision
          (reviewed_plan plan note actor_id now)
          (installments_of db (reviewed_plan plan note actor_id now))
          now
          db in
      (plan' ≡ p) × (db' ≡ audit_decision decision p actor_id d)
  pub written : Written decision plan actor_id now db plan' db'

approve_plan-Approvable :
    (plan : RepaymentPlan) (c : PlanContext) (now : ℕ) (db : RepaymentDb)
    {result : RepaymentPlan × RepaymentDb}
    → approve_plan plan c now db ≡ ok result
    → Approvable plan c now db × (result ≡ activate plan (installments_of db plan) now db)
unfolding approve_plan
approve_plan-Approvable plan c now db h =
    let (v, h₁) = raise_if-eq_ok _ _ _ h in
    let (t, h₂) = >>-eq_ok _ _ h₁ in
    let (r, h₃) = raise_if-eq_ok _ _ _ h₂ in
    (
      record {
        same_policy = ==→eq _ _ (not-false _ v);
        terms =
            validate_terms-Acceptable c.case c.profile c.pack plan.total_cents
              plan.down_payment_cents (map item_of (installments_of db plan)) plan.signed_at now t;
        alone = r;
      },
      cc h₃,
    )

carry_out_lem :
    (decision : Decision) (plan : RepaymentPlan) (c : PlanContext) (now : ℕ) (db : RepaymentDb)
    {result : RepaymentPlan × RepaymentDb}
    → carry_out decision plan c now db ≡ ok result
    → Checked decision plan c now db
      × (result ≡ outcome decision plan (installments_of db plan) now db)
unfolding carry_out
carry_out_lem approve plan c now db h =
    let (a, q) = approve_plan-Approvable plan c now db h in (a, q)
carry_out_lem reject plan c now db h = (tt, cc h)
carry_out_lem unknown plan c now db h = (tt, cc h)

abbrev returned : RepaymentPlan × RepaymentDb → Result PlanCode (RepaymentPlan × RepaymentDb)
returned w = ok w

signed_off :
    (decision : Decision) (actor_id : ℕ) (p : RepaymentPlan) (d : RepaymentDb)
    (o : RepaymentPlan × RepaymentDb) {w : RepaymentPlan × RepaymentDb}
    → o ≡ (p, d)
    → returned (p, audit_decision decision p actor_id d) ≡ returned w
    → (o.0, audit_decision decision o.0 actor_id o.1) ≡ w
signed_off decision actor_id p d o e h = cc (e, h)

-- A review that returns found the plan pending and at the expected version, and the reviewer is not the
-- one who proposed it. An approval has checked the terms anew against the case, its profile and the
-- package of now, whose policy has the plan's version, and that no other plan of the case is active or
-- completed. An approval makes the plan active and its case and profile those of a signed plan; a
-- rejection leaves the cases and the profiles as they were; neither touches the installments and the
-- allocations, and both are entered in the audit of the plans.
pub decide_plan-Reviewed :
    (plan : RepaymentPlan) (decision : Decision) (note : Text) (expected_version actor_id now : ℕ)
    (db : RepaymentDb) {plan' : RepaymentPlan} {db' : RepaymentDb}
    → decide_plan plan decision note expected_version actor_id now db ≡ ok (plan', db')
    → Reviewed plan decision note expected_version actor_id now db plan' db'
unfolding decide_plan finish_review reviewed_plan
decide_plan-Reviewed plan decision note expected_version actor_id now db {plan'} {db'} h =
    let plan₁ = reviewed_plan plan note actor_id now in
    let rest = finish_review plan₁ decision actor_id now db in
    let (p, h₁) = raise_if-eq_ok (not (is_pending plan.status)) plan_not_pending _ h in
    let (v, h₂) =
      raise_if-eq_ok (not (plan.version == expected_version)) plan_version_conflict _ h₁ in
    let (a, h₃) =
      raise_if-eq_ok (plan.proposed_by == actor_id) maker_checker_conflict
        (raise_if (not (is_known decision)) invalid_decision >> rest) h₂ in
    let (k, h₄) = raise_if-eq_ok (not (is_known decision)) invalid_decision rest h₃ in
    let (c, f, h₅) = >>=-eq_ok (plan_context db plan₁.tenant_id plan₁.case_id) _ h₄ in
    let (r, o, h₆) = >>=-eq_ok (carry_out decision plan₁ c now db) _ h₅ in
    let (checked, q) = carry_out_lem decision plan₁ c now db o in
    record {
      was_pending = is_pending-eq plan.status (not-false _ p);
      current = ==→eq _ _ (not-false _ v);
      two_people = λ e. ground arith;
      context = c;
      found = f;
      checked = checked;
      exact =
          subst (λ o. (plan' ≡ o.0) × (db' ≡ audit_decision decision o.0 actor_id o.1)) q
            (cc h₆, cc h₆);
      written =
          subst (λ (w : RepaymentPlan × RepaymentDb). Written decision plan actor_id now db w.0 w.1)
            (signed_off decision actor_id r.0 r.1 _ (sym q) h₆)
            (outcome-Written decision plan note (installments_of db plan₁) actor_id now db
              (not-false _ k));
    }
