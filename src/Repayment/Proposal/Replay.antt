-- ===== src/Repayment/Proposal/Replay.antt =====
-- What a proposal that is accepted has passed, and its repetition.
use luheng_fulfillops_cloud.Base.{
  ℕ, ◌≤◌, ◌≡◌, ◌∙◌, refl, true, false, Option, none, some, List, [], ◌∷◌, arith, strip, upper, Text,
  naive_utc, ok, err, ◌==◌, subst, raise_if-eq_ok, first-append_new, >>=-eq_ok, >>-eq_ok,
  if◌then◌else◌, ==_refl, is_some,
}
use luheng_fulfillops_cloud.Cases.{CaseRecord, CaseFinancialProfile, AssetPackage}
use luheng_fulfillops_cloud.Repayment.Rows.{
  RepaymentDb, RepaymentPlan, ScheduleItem, case_plan_in_progress, plan_id_conflict, Evidence,
  of_case_self,
}
use luheng_fulfillops_cloud.Repayment.Context.{PlanContext, plan_context}
use luheng_fulfillops_cloud.Repayment.Terms.{normalize_schedule, validate_terms}
use luheng_fulfillops_cloud.Repayment.Proposal.{
  ProposalRequest, evidence_of, new_plan, add_plan, find_plan, find_in_progress, settle_proposal,
  create_plan_proposal,
}

-- The steps of a proposal that returned.
pub record Accepted (evidence_digest : Evidence → ℕ) (r : ProposalRequest) (now : ℕ)
    (db : RepaymentDb) (plan : RepaymentPlan) (db' : RepaymentDb) : Type 0 where
  pub schedule : List ScheduleItem
  pub normalized : normalize_schedule r.schedule ≡ ok schedule
  pub context : PlanContext
  pub found : plan_context db r.tenant_id (upper (strip r.case_id)) ≡ ok context
  pub valid :
      validate_terms context.case context.profile context.pack r.total_cents r.down_payment_cents
        schedule
        (naive_utc r.signed_at)
        now
      ≡ ok tt
  pub settled :
      let e = evidence_of context (record r { schedule = schedule }) in
      settle_proposal db e (evidence_digest e) r.actor_id now (find_plan db e.tenant_id e.plan_id)
      ≡ ok (plan, db')

module _ (evidence_digest : Evidence → ℕ) where
  pub create_plan_proposal-Accepted :
      (r : ProposalRequest) (now : ℕ) (db : RepaymentDb) {plan : RepaymentPlan} {db' : RepaymentDb}
      → create_plan_proposal evidence_digest r now db ≡ ok (plan, db')
      → Accepted evidence_digest r now db plan db'
  unfolding create_plan_proposal
  create_plan_proposal-Accepted r now db h =
      let (schedule, n, h₁) = >>=-eq_ok _ _ h in
      let (c, f, h₂) = >>=-eq_ok _ _ h₁ in
      let (v, h₃) = >>-eq_ok _ _ h₂ in
      record {
        schedule = schedule;
        normalized = n;
        context = c;
        found = f;
        valid = v;
        settled = h₃;
      }

-- The same checks pass at any later time.
validate_terms_later :
    (case : CaseRecord) (profile : CaseFinancialProfile) (pack : AssetPackage) (total down : ℕ)
    (schedule : List ScheduleItem) (signed_at now later : ℕ)
    → now ≤ later
    → validate_terms case profile pack total down schedule signed_at now ≡ ok tt
    → validate_terms case profile pack total down schedule signed_at later ≡ ok tt
unfolding validate_terms
validate_terms_later case profile pack total down [] signed_at now later le h =
    absurd (ground arith)
validate_terms_later case profile pack total down (i ∷ schedule) signed_at now later le h =
    ground arith

-- The plan that a proposal stores is the one that its number finds afterwards.
find_plan-add_plan :
    (db : RepaymentDb) (plan : RepaymentPlan) (schedule : List ScheduleItem)
    → find_plan db plan.tenant_id plan.plan_id ≡ none
    → find_plan (add_plan db plan schedule) plan.tenant_id plan.plan_id ≡ some plan
unfolding find_plan add_plan
find_plan-add_plan db plan schedule e =
    first-append_new _ db.plans plan e (of_case_self plan.tenant_id plan.plan_id)

plan_context-add_plan :
    (db : RepaymentDb) (plan : RepaymentPlan) (schedule : List ScheduleItem) (tenant : ℕ)
    (case_id : Text)
    → plan_context (add_plan db plan schedule) tenant case_id ≡ plan_context db tenant case_id
unfolding plan_context add_plan
plan_context-add_plan db plan schedule tenant case_id = refl

-- What settling a proposal leaves behind settles the same proposal to the same plan.
record Settled (db : RepaymentDb) (e : Evidence) (digest actor_id later : ℕ) (plan : RepaymentPlan)
    (db' : RepaymentDb) : Type 0 where
  context : (t : ℕ) (c : Text) → plan_context db' t c ≡ plan_context db t c
  again :
      settle_proposal db' e digest actor_id later (find_plan db' e.tenant_id e.plan_id)
      ≡ ok (plan, db')

pub settle_known :
    (db : RepaymentDb) (e : Evidence) (digest actor_id now : ℕ) (existing : RepaymentPlan)
    {result : RepaymentPlan × RepaymentDb}
    → settle_proposal db e digest actor_id now (some existing) ≡ ok result
    → ((existing.evidence_digest == digest) ≡ true) × ((existing, db) ≡ result)
unfolding settle_proposal
settle_known db e digest actor_id now existing {result} h =
    (elim (existing.evidence_digest == digest)
        as (λ b.
          (if b then ok (existing, db) else err plan_id_conflict) ≡ ok result
          → (b ≡ true) × ((existing, db) ≡ result)) [
            | true ↦ λ q. (refl, cc q)
            | false ↦ λ q. absurd (cc q)
          ])
      h

pub settle_new :
    (db : RepaymentDb) (e : Evidence) (digest actor_id now : ℕ)
    {result : RepaymentPlan × RepaymentDb}
    → settle_proposal db e digest actor_id now none ≡ ok result
    → let plan = new_plan e digest actor_id db.next_id now in
      (is_some (find_in_progress db e.tenant_id e.case_id) ≡ false)
      × ((plan, add_plan db plan e.schedule) ≡ result)
unfolding settle_proposal
settle_new db e digest actor_id now h =
    let (free, q) =
      raise_if-eq_ok (is_some (find_in_progress db e.tenant_id e.case_id)) case_plan_in_progress
        (let plan = new_plan e digest actor_id db.next_id now in
          ok (plan, add_plan db plan e.schedule))
        h in
    (free, cc q)

settle_proposal-Settled :
    (db : RepaymentDb) (e : Evidence) (digest actor_id now later : ℕ) (o : Option RepaymentPlan)
    {result : RepaymentPlan × RepaymentDb}
    → find_plan db e.tenant_id e.plan_id ≡ o
    → settle_proposal db e digest actor_id now o ≡ ok result
    → Settled db e digest actor_id later result.0 result.1
unfolding settle_proposal
settle_proposal-Settled db e digest actor_id now later (some existing) f h =
    let (same, q) = settle_known db e digest actor_id now existing h in
    subst (λ r. Settled db e digest actor_id later r.0 r.1) q
      (record { context = λ t c. refl; again = rw f (rw same) })
settle_proposal-Settled db e digest actor_id now later none f h =
    let plan = new_plan e digest actor_id db.next_id now in
    let (_, q) = settle_new db e digest actor_id now h in
    subst (λ r. Settled db e digest actor_id later r.0 r.1) q
      (record {
        context = plan_context-add_plan db plan e.schedule;
        again = unfold new_plan in rw (find_plan-add_plan db plan e.schedule f) (rw ==_refl);
      })

module _ (evidence_digest : Evidence → ℕ) where
  -- A proposal that returned a plan returns it again at any later time, and changes nothing.
  pub create_plan_proposal_idem :
      (r : ProposalRequest) (now later : ℕ) (db : RepaymentDb) {plan : RepaymentPlan}
      {db' : RepaymentDb}
      → now ≤ later
      → create_plan_proposal evidence_digest r now db ≡ ok (plan, db')
      → create_plan_proposal evidence_digest r later db' ≡ ok (plan, db')
  unfolding create_plan_proposal
  create_plan_proposal_idem r now later db le h =
      let a = create_plan_proposal-Accepted evidence_digest r now db h in
      let c = a.context in
      let e = evidence_of c (record r { schedule = a.schedule }) in
      let s =
        settle_proposal-Settled db e (evidence_digest e) r.actor_id now later
          (find_plan db e.tenant_id e.plan_id) refl a.settled in
      rw a.normalized (
        rw (s.context r.tenant_id (upper (strip r.case_id)) ∙ a.found) (
          rw
            (validate_terms_later c.case c.profile c.pack r.total_cents r.down_payment_cents
              a.schedule (naive_utc r.signed_at) now later le a.valid)
            s.again))
