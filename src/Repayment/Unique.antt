-- ===== src/Repayment/Unique.antt =====
-- A case has one plan at most that is waiting for review, active or completed.
use luheng_fulfillops_cloud.Base.{
  ℕ, ◌≤◌, ◌≡◌, refl, inl, inr, ◌∙◌, subst, sym, ap, true, false, Option, none, some, List, [], ◌∷◌,
  ◌++◌, arith, count_by, count_by-append, first-none→count_by, count_by-update-le, All, is_some, ok,
  Text, text_eq→eq, Bool-cases, ◌==◌,
}
use luheng_fulfillops_cloud.Repayment.Rows.{
  RepaymentInstallment, RepaymentDb, RepaymentPlan, Evidence, pending_review,
}
use luheng_fulfillops_cloud.Repayment.Proposal.{
  ProposalRequest, new_plan, add_plan, blocks_case, find_in_progress, find_plan, settle_proposal,
  evidence_of, create_plan_proposal,
}
use native.Mathlib.Nat.{le_trans}
use luheng_fulfillops_cloud.Cases.{Decision, approve, reject, unknown}
use luheng_fulfillops_cloud.Repayment.Context.{installments_of}
use luheng_fulfillops_cloud.Repayment.Decision.{
  write_plan, decide_plan, reviewed_plan, activate, decline, audit_decision,
}
use luheng_fulfillops_cloud.Repayment.Decision.Review.{decide_plan-Reviewed}
use luheng_fulfillops_cloud.Repayment.Decision.Effects.{outcome}
use luheng_fulfillops_cloud.Repayment.Proposal.Replay.{
  create_plan_proposal-Accepted, settle_known, settle_new,
}

abbrev pub IsExclusive : List RepaymentPlan → Type 0
IsExclusive plans =
    (tenant_id : ℕ) (case_id : Text) → count_by (blocks_case tenant_id case_id) plans ≤ 1

is_some-none : {A : Type 0} (o : Option A) → is_some o ≡ false → o ≡ none
is_some-none none e = refl
is_some-none (some a) e = absurd (cc e)

add_plan-IsExclusive :
    (plans : List RepaymentPlan) (plan : RepaymentPlan)
    → IsExclusive plans
    → count_by (blocks_case plan.tenant_id plan.case_id) plans ≡ 0
    → IsExclusive (plans ++ plan ∷ [])
add_plan-IsExclusive plans plan h e t c = elim (Bool-cases (blocks_case t c plan)) [
  | inl hit ↦
      let same_tenant : plan.tenant_id ≡ t = ground (arith, hit) in
      let same_case : plan.case_id ≡ c = text_eq→eq _ _ (ground (arith, hit)) in
      let free : count_by (blocks_case t c) plans ≡ 0 =
        subst (λ u. count_by (blocks_case u c) plans ≡ 0) same_tenant
          (subst (λ d. count_by (blocks_case plan.tenant_id d) plans ≡ 0) same_case e) in
      rw (count_by-append (blocks_case t c) plans (plan ∷ [])) (rw (free, hit) (omega arith))
  | inr miss ↦
      rw (count_by-append (blocks_case t c) plans (plan ∷ [])) (rw miss (omega (arith, h t c)))
]

settle_proposal-IsExclusive :
    (db : RepaymentDb) (e : Evidence) (digest actor_id now : ℕ) (o : Option RepaymentPlan)
    {result : RepaymentPlan × RepaymentDb}
    → settle_proposal db e digest actor_id now o ≡ ok result
    → IsExclusive db.plans
    → IsExclusive result.1.plans
settle_proposal-IsExclusive db e digest actor_id now (some existing) s h =
    let (_, q) = settle_known db e digest actor_id now existing s in
    subst (λ r. IsExclusive r.1.plans) q h
settle_proposal-IsExclusive db e digest actor_id now none s h =
    let plan = new_plan e digest actor_id db.next_id now in
    let (free, q) = settle_new db e digest actor_id now s in
    let none_found = is_some-none (find_in_progress db e.tenant_id e.case_id) free in
    subst (λ r. IsExclusive r.1.plans) q
      (unfold add_plan in
        add_plan-IsExclusive db.plans plan h (
          unfold new_plan find_in_progress in
          first-none→count_by (blocks_case e.tenant_id e.case_id) db.plans none_found))

-- Where each case has one plan at most that is pending, active or completed, a proposal that returns keeps
-- it so.
pub create_plan_proposal-IsExclusive :
    (evidence_digest : Evidence → ℕ) (r : ProposalRequest) (now : ℕ) (db : RepaymentDb)
    {plan : RepaymentPlan} {db' : RepaymentDb}
    → create_plan_proposal evidence_digest r now db ≡ ok (plan, db')
    → IsExclusive db.plans
    → IsExclusive db'.plans
create_plan_proposal-IsExclusive evidence_digest r now db h valid =
    let a = create_plan_proposal-Accepted evidence_digest r now db h in
    let e = evidence_of a.context (record r { schedule = a.schedule }) in
    settle_proposal-IsExclusive db e (evidence_digest e) r.actor_id now
      (find_plan db e.tenant_id e.plan_id) a.settled valid

-- The plan is the row of its key.
abbrev pub IsRow : RepaymentPlan → List RepaymentPlan → Type 0
IsRow plan = All (λ (p : RepaymentPlan). (p.id == plan.id) ≡ true → p ≡ plan)

write_plan-IsExclusive :
    (plan plan' : RepaymentPlan) (plans : List RepaymentPlan)
    → plan'.id ≡ plan.id
    → ((t : ℕ) (c : Text) → blocks_case t c plan' ≡ true → blocks_case t c plan ≡ true)
    → IsRow plan plans
    → IsExclusive plans
    → IsExclusive (write_plan plan' plans)
unfolding write_plan
write_plan-IsExclusive plan plan' plans same less row h t c =
    le_trans
      (count_by-update-le (blocks_case t c) (λ (p : RepaymentPlan). p.id == plan'.id) (λ _. plan')
        plans (each plans row))
      (h t c)
  where
    each :
        (ps : List RepaymentPlan)
        → IsRow plan ps
        → All
            (λ (p : RepaymentPlan).
              (p.id == plan'.id) ≡ true → blocks_case t c plan' ≡ true → blocks_case t c p ≡ true)
            ps
    each [] r = tt
    each (p ∷ ps) r = (
      λ hit counts.
          subst (λ q. blocks_case t c q ≡ true)
            (sym (r.0 (subst (λ i. (p.id == i) ≡ true) same hit))) (less t c counts),
      each ps r.1,
    )

decided-blocks :
    (decision : Decision) (plan : RepaymentPlan) (rows : List RepaymentInstallment) (now : ℕ)
    (db : RepaymentDb)
    → plan.status ≡ pending_review
    → (t : ℕ) (c : Text) → blocks_case t c (outcome decision plan rows now db).0 ≡ true
    → blocks_case t c plan ≡ true
unfolding activate decline
decided-blocks approve plan rows now db e t c h = rw e h
decided-blocks reject plan rows now db e t c h = absurd (ground arith)
decided-blocks unknown plan rows now db e t c h = absurd (ground arith)

outcome_plans :
    (decision : Decision) (plan : RepaymentPlan) (rows : List RepaymentInstallment) (now : ℕ)
    (db : RepaymentDb)
    → let (p, d) = outcome decision plan rows now db in
      (p.id ≡ plan.id) × (d.plans ≡ write_plan p db.plans)
unfolding activate decline
outcome_plans approve plan rows now db = (refl, refl)
outcome_plans reject plan rows now db = (refl, refl)
outcome_plans unknown plan rows now db = (refl, refl)

-- Where each case has one plan at most that is pending, active or completed, a review that returns, of the
-- row that the plan's key finds, keeps it so.
pub decide_plan-IsExclusive :
    (plan : RepaymentPlan) (decision : Decision) (note : Text) (expected_version actor_id now : ℕ)
    (db : RepaymentDb) {plan' : RepaymentPlan} {db' : RepaymentDb}
    → decide_plan plan decision note expected_version actor_id now db ≡ ok (plan', db')
    → IsRow plan db.plans
    → IsExclusive db.plans
    → IsExclusive db'.plans
unfolding audit_decision reviewed_plan
decide_plan-IsExclusive plan decision note expected_version actor_id now db h row valid =
    let r = decide_plan-Reviewed plan decision note expected_version actor_id now db h in
    let plan₁ = reviewed_plan plan note actor_id now in
    let rows = installments_of db plan₁ in
    let (same, written) = outcome_plans decision plan₁ rows now db in
    let p = (outcome decision plan₁ rows now db).0 in
    subst IsExclusive (sym (ap (λ (d : RepaymentDb). d.plans) r.exact.1 ∙ written)) (
      write_plan-IsExclusive plan p db.plans same
        (decided-blocks decision plan₁ rows now db r.was_pending) row valid)
