-- ===== src/Repayment/Examples.antt =====
-- A case whose plan is proposed, approved and paid: the data of the examples.
mod Plans
mod Money
use luheng_fulfillops_cloud.Base.{
  ℕ, ◌+◌, ◌*◌, false, none, List, [], ◌∷◌, Text, codes, ok, err, Result, aware, day, length,
}
use luheng_fulfillops_cloud.Cases.{
  CaseRecord, CaseFinancialProfile, AssetPackage, awaiting_contact, published,
}
use luheng_fulfillops_cloud.Repayment.Rows.{
  RepaymentDb, RepaymentPlan, ScheduleItem, PlanCode, Evidence,
}
use luheng_fulfillops_cloud.Repayment.Proposal.{ProposalRequest}

abbrev pub case_one : CaseRecord
case_one = record {
  tenant_id = 1;
  case_id = codes "C1";
  package_id = 7;
  status = awaiting_contact;
  blocked = false;
  has_signed_plan = false;
  contact_basis_ref = none;
  version = 1;
}

abbrev pub profile_one : CaseFinancialProfile
profile_one = record {
  tenant_id = 1;
  case_id = codes "C1";
  commission_rule_id = 3;
  claim_balance_cents = 2000;
  mandate_start = 0;
  mandate_end = 1000;
  signed_plan_at = none;
  signed_plan_last_due = none;
  signed_plan_tail_eligible = false;
}

abbrev pub package_one : AssetPackage
package_one = record {
  tenant_id = 1;
  package_id = 7;
  policy_status = published;
  policy_version = 4;
  budget_limit_yuan = 100;
  min_settlement_bps = 4000;
  max_installments = 12;
  min_down_payment_bps = 1000;
}

abbrev pub tables : RepaymentDb
tables = record {
  cases = case_one ∷ [];
  profiles = profile_one ∷ [];
  packages = package_one ∷ [];
  plans = [];
  installments = [];
  allocations = [];
  plan_audit = [];
  next_id = 1;
}

abbrev pub two_periods : List ScheduleItem
two_periods =
    record { installment_no = 1; due_date = 100; due_cents = 400 }
    ∷ record { installment_no = 2; due_date = 130; due_cents = 600 }
    ∷ []

abbrev pub request : ProposalRequest
request = record {
  tenant_id = 1;
  case_id = codes " c1 ";
  plan_id = codes "p1";
  total_cents = 1000;
  down_payment_cents = 400;
  schedule = two_periods;
  agreement_reference = codes "a1";
  agreement_digest = codes "AB";
  signed_at = aware (50 * day);
  proposal_reason = codes "ok";
  actor_id = 11;
}

abbrev pub evidence_hash : Evidence → ℕ
evidence_hash e = e.total_cents + e.signed_at

abbrev pub id_hash : Text → Text → ℕ
id_hash s t = length s * 100 + length t

abbrev pub proposed_at : ℕ
proposed_at = 60 * day

-- The plan and the tables of an operation that returned.
abbrev pub plan_in : RepaymentPlan → Result PlanCode (RepaymentPlan × RepaymentDb) → RepaymentPlan
plan_in p (ok r) = r.0
plan_in p (err _) = p

abbrev pub tables_in : Result PlanCode (RepaymentPlan × RepaymentDb) → RepaymentDb
tables_in (ok r) = r.1
tables_in (err _) = tables
