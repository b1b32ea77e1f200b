-- ===== src/Repayment/Proposal.antt =====
-- `create_plan_proposal` of backend/app/repayment_plans.py. The hash of the evidence is a parameter:
-- the program takes it from hashlib.
pub mod Replay
use luheng_fulfillops_cloud.Base.{
  ℕ, ◌+◌, ◌/◌, ◌%◌, ◌&&◌, Bool, Option, none, some, List, [], ◌∷◌, ◌++◌, ◌==◌, if◌then◌else◌,
  length, first, strip, upper, lower, Text, Datetime, naive_utc, Result, ok, err, ◌>>=◌, ◌>>◌,
  raise_if, is_some,
}
use luheng_fulfillops_cloud.Repayment.Rows.{
  RepaymentDb, RepaymentInstallment, RepaymentPlan, PlanCode, Evidence, PolicySnapshot,
  ScheduleItem, pending_review, is_in_progress, scheduled, proposed, plan_id_conflict,
  case_plan_in_progress, of_case,
}
use luheng_fulfillops_cloud.Repayment.Context.{PlanContext, plan_context}
use luheng_fulfillops_cloud.Repayment.Terms.{normalize_schedule, validate_terms}

-- The arguments of the operation.
pub record ProposalRequest : Type 0 where
  pub tenant_id : ℕ
  pub case_id : Text
  pub plan_id : Text
  pub total_cents : ℕ
  pub down_payment_cents : ℕ
  pub schedule : List ScheduleItem
  pub agreement_reference : Text
  pub agreement_digest : Text
  pub signed_at : Datetime
  pub proposal_reason : Text
  pub actor_id : ℕ

-- The last two decimal digits of a period's number, which the schema keeps below 100.
abbrev two_digits : ℕ → Text
two_digits n = (48 + n / 10 % 10) ∷ (48 + n % 10) ∷ []

unfoldable pub snapshot_of : PlanContext → PolicySnapshot
snapshot_of c = record {
  package_id = c.pack.package_id;
  policy_version = c.pack.policy_version;
  min_settlement_bps = c.pack.min_settlement_bps;
  max_installments = c.pack.max_installments;
  min_down_payment_bps = c.pack.min_down_payment_bps;
  mandate_start = c.profile.mandate_start;
  mandate_end = c.profile.mandate_end;
}

unfoldable pub evidence_of : PlanContext → ProposalRequest → Evidence
unfolding snapshot_of
evidence_of c r = record {
  tenant_id = r.tenant_id;
  case_id = upper (strip r.case_id);
  plan_id = upper (strip r.plan_id);
  claim_balance_cents = c.profile.claim_balance_cents;
  total_cents = r.total_cents;
  down_payment_cents = r.down_payment_cents;
  schedule = r.schedule;
  agreement_reference = upper (strip r.agreement_reference);
  agreement_digest = lower r.agreement_digest;
  signed_at = naive_utc r.signed_at;
  policy_snapshot = snapshot_of c;
  proposal_reason = strip r.proposal_reason;
}

unfoldable pub new_plan : Evidence → ℕ → ℕ → ℕ → ℕ → RepaymentPlan
new_plan e digest actor_id id now = record {
  id = id;
  tenant_id = e.tenant_id;
  plan_id = e.plan_id;
  case_id = e.case_id;
  status = pending_review;
  version = 1;
  claim_balance_cents = e.claim_balance_cents;
  total_cents = e.total_cents;
  down_payment_cents = e.down_payment_cents;
  installment_count = length e.schedule;
  policy_version = e.policy_snapshot.policy_version;
  policy_snapshot = e.policy_snapshot;
  agreement_reference = e.agreement_reference;
  agreement_digest = e.agreement_digest;
  signed_at = e.signed_at;
  evidence_digest = digest;
  proposal_reason = e.proposal_reason;
  proposed_by = actor_id;
  proposed_at = now;
  reviewed_by = none;
  reviewed_at = none;
  review_note = none;
  activated_at = none;
  completed_at = none;
}

-- The installments of a new plan, with keys from `next_id` on.
unfoldable pub new_installments : RepaymentPlan → List ScheduleItem → ℕ → List RepaymentInstallment
new_installments plan [] next_id = []
new_installments plan (i ∷ schedule) next_id =
    record {
      id = next_id;
      tenant_id = plan.tenant_id;
      plan_row_id = plan.id;
      installment_id = plan.plan_id ++ 45 ∷ two_digits i.installment_no;
      installment_no = i.installment_no;
      due_date = i.due_date;
      due_cents = i.due_cents;
      paid_cents = 0;
      status = scheduled;
      last_payment_at = none;
    }
    ∷ new_installments plan schedule (next_id + 1)

unfoldable pub find_plan : RepaymentDb → ℕ → Text → Option RepaymentPlan
find_plan db tenant_id plan_id =
    first (λ (p : RepaymentPlan). of_case tenant_id plan_id p.tenant_id p.plan_id) db.plans

abbrev pub blocks_case : ℕ → Text → RepaymentPlan → Bool
blocks_case tenant_id case_id p =
    of_case tenant_id case_id p.tenant_id p.case_id && is_in_progress p.status

unfoldable pub find_in_progress : RepaymentDb → ℕ → Text → Option RepaymentPlan
find_in_progress db tenant_id case_id = first (blocks_case tenant_id case_id) db.plans

unfoldable pub add_plan : RepaymentDb → RepaymentPlan → List ScheduleItem → RepaymentDb
unfolding new_installments
add_plan db plan schedule = record db {
  plans = db.plans ++ plan ∷ [];
  installments = db.installments ++ new_installments plan schedule (plan.id + 1);
  plan_audit =
      db.plan_audit
      ++ proposed plan.tenant_id plan.proposed_by plan.id plan.plan_id plan.case_id
          plan.policy_version plan.installment_count plan.evidence_digest
        ∷ [];
  next_id = plan.id + 1 + length schedule;
}

-- What follows the look-up of a plan of that number: the plan itself for the same evidence.
unfoldable pub settle_proposal :
    RepaymentDb
    → Evidence
    → ℕ
    → ℕ
    → ℕ
    → Option RepaymentPlan
    → Result PlanCode (RepaymentPlan × RepaymentDb)
settle_proposal db e digest actor_id now (some existing) =
    if existing.evidence_digest == digest then ok (existing, db) else err plan_id_conflict
settle_proposal db e digest actor_id now none = do
  raise_if (is_some (find_in_progress db e.tenant_id e.case_id)) case_plan_in_progress
  let plan = new_plan e digest actor_id db.next_id now
  ok (plan, add_plan db plan e.schedule)

module _ (evidence_digest : Evidence → ℕ) where
  unfoldable pub create_plan_proposal :
      ProposalRequest → ℕ → RepaymentDb → Result PlanCode (RepaymentPlan × RepaymentDb)
  unfolding settle_proposal
  create_plan_proposal r now db = do
    schedule ← normalize_schedule r.schedule
    c ← plan_context db r.tenant_id (upper (strip r.case_id))
    validate_terms c.case c.profile c.pack r.total_cents r.down_payment_cents schedule
        (naive_utc r.signed_at) now
    let e = evidence_of c (record r { schedule = schedule })
    settle_proposal db e (evidence_digest e) r.actor_id now (find_plan db e.tenant_id e.plan_id)
