-- ===== src/Repayment/Decision/Effects.antt =====
-- What a review of a plan writes, seen in the tables after it: backend/app/repayment_plans.py.
use luheng_fulfillops_cloud.Base.{
  ◌+◌, List, [], ◌∷◌, All, update, some, Bool-cases, ◌⊎◌, inl, inr, date_of, ℕ, ◌==◌, ◌≡◌, refl,
  Bool, true, false, Text,
}
use luheng_fulfillops_cloud.Cases.{
  CaseRecord, CaseFinancialProfile, performing, Decision, approve, reject, unknown, is_known,
}
use luheng_fulfillops_cloud.Repayment.Rows.{
  of_case, RepaymentDb, RepaymentPlan, RepaymentInstallment, active, rejected,
}
use luheng_fulfillops_cloud.Repayment.Decision.{
  last_due, write_plan, reviewed_plan, activate, decline, audit_decision,
}

-- The plan and the tables that the decision leaves.
abbrev pub outcome :
    Decision
    → RepaymentPlan
    → List RepaymentInstallment
    → ℕ
    → RepaymentDb
    → RepaymentPlan × RepaymentDb
outcome approve plan rows now db = activate plan rows now db
outcome _ plan rows now db = decline plan db

-- The row is another one, or it has the property.
abbrev pub OthersOr {ℓ} : {A : Type ℓ} → (A → Bool) → (A → Type 0) → A → Type 0
OthersOr p Q a = (p a ≡ false) ⊎ Q a

update-OthersOr {ℓ} :
    {A : Type ℓ} (p : A → Bool) (f : A → A) (Q : A → Type 0) (xs : List A)
    → ((x : A) → Q (f x))
    → All (OthersOr p Q) (update p f xs)
update-OthersOr p f Q [] h = tt
update-OthersOr p f Q (x ∷ xs) h = elim (Bool-cases (p x)) [
  | inl hit ↦ rw hit (inr (h x), update-OthersOr p f Q xs h)
  | inr miss ↦ rw miss (inl miss, update-OthersOr p f Q xs h)
]

abbrev pub is_row_of : RepaymentPlan → RepaymentPlan → Bool
is_row_of plan p = p.id == plan.id

abbrev pub is_case_of : RepaymentPlan → CaseRecord → Bool
is_case_of plan c = of_case plan.tenant_id plan.case_id c.tenant_id c.case_id

abbrev pub is_profile_of : RepaymentPlan → CaseFinancialProfile → Bool
is_profile_of plan p = of_case plan.tenant_id plan.case_id p.tenant_id p.case_id

abbrev pub IsSigned : CaseRecord → Type 0
IsSigned c = (c.has_signed_plan ≡ true) × (c.status ≡ performing)

abbrev pub IsSignedProfile : RepaymentPlan → CaseFinancialProfile → Type 0
IsSignedProfile plan p =
    (p.signed_plan_at ≡ some (date_of plan.signed_at)) × (p.signed_plan_tail_eligible ≡ true)

-- What the decision writes, as it is seen in the tables after it: an approval makes the plan active, and
-- its case and profile those of a signed plan; a rejection leaves these. No money moves.
abbrev pub Written :
    Decision
    → RepaymentPlan
    → (actor_id now : ℕ) → RepaymentDb
    → RepaymentPlan
    → RepaymentDb
    → Type 0
Written approve plan actor_id now db plan' db' =
    (plan'.status ≡ active)
    × (plan'.activated_at ≡ some now)
    × (plan'.version ≡ plan.version + 1)
    × (plan'.reviewed_by ≡ some actor_id)
    × (plan'.total_cents ≡ plan.total_cents)
    × All (OthersOr (is_row_of plan) (λ p. p ≡ plan')) db'.plans
    × All (OthersOr (is_case_of plan) IsSigned) db'.cases
    × All (OthersOr (is_profile_of plan) (IsSignedProfile plan)) db'.profiles
    × (db'.installments ≡ db.installments)
    × (db'.allocations ≡ db.allocations)
Written reject plan actor_id now db plan' db' =
    (plan'.status ≡ rejected)
    × (plan'.version ≡ plan.version + 1)
    × (plan'.reviewed_by ≡ some actor_id)
    × All (OthersOr (is_row_of plan) (λ p. p ≡ plan')) db'.plans
    × (db'.cases ≡ db.cases)
    × (db'.profiles ≡ db.profiles)
    × (db'.installments ≡ db.installments)
    × (db'.allocations ≡ db.allocations)
Written unknown plan actor_id now db plan' db' = ⊥

pub outcome-Written :
    (decision : Decision) (plan : RepaymentPlan) (note : Text) (rows : List RepaymentInstallment)
    (actor_id now : ℕ) (db : RepaymentDb)
    → is_known decision ≡ true
    → let o = outcome decision (reviewed_plan plan note actor_id now) rows now db in
      Written decision plan actor_id now db o.0 (audit_decision decision o.0 actor_id o.1)
unfolding activate decline audit_decision reviewed_plan write_plan
outcome-Written approve plan note rows actor_id now db known = (
  refl,
  refl,
  refl,
  refl,
  refl,
  update-OthersOr (is_row_of plan)
      (λ _. (activate (reviewed_plan plan note actor_id now) rows now db).0)
      (λ p. p ≡ (activate (reviewed_plan plan note actor_id now) rows now db).0) db.plans
      (λ _. refl),
  update-OthersOr (is_case_of plan)
      (λ (c : CaseRecord). record c { has_signed_plan = true; status = performing }) IsSigned
      db.cases (λ _. (refl, refl)),
  update-OthersOr (is_profile_of plan)
      (λ (p : CaseFinancialProfile). record p {
        signed_plan_at = some (date_of plan.signed_at);
        signed_plan_last_due = last_due rows;
        signed_plan_tail_eligible = true;
      })
      (IsSignedProfile plan) db.profiles (λ _. (refl, refl)),
  refl,
  refl,
)
outcome-Written reject plan note rows actor_id now db known = (
  refl,
  refl,
  refl,
  update-OthersOr (is_row_of plan) (λ _. (decline (reviewed_plan plan note actor_id now) db).0)
      (λ p. p ≡ (decline (reviewed_plan plan note actor_id now) db).0) db.plans (λ _. refl),
  refl,
  refl,
  refl,
  refl,
)
outcome-Written unknown plan note rows actor_id now db known = absurd (cc known)
