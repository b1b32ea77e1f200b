-- ===== src/Policy/Examples.antt =====
-- A policy that is proposed, approved by a second person and proposed again: runs, and the theorems
-- at them.
use luheng_fulfillops_cloud.Base.{
  ℕ, ◌+◌, ◌*◌, ◌/◌, ◌≡◌, refl, some, List, [], ◌∷◌, arith, codes, err, length, order_by,
}
use luheng_fulfillops_cloud.Cases.{PolicyStatus, approve, reject}
use luheng_fulfillops_cloud.Policy.Rows.{PolicyDb, self_review_forbidden}
use luheng_fulfillops_cloud.Policy.Workflow.{
  yuan, PolicyEvidence, PolicyRequest, find_package, create_policy_proposal, new_proposal,
  proposed_parameters, reviewed_proposal, apply_decision, decide_policy_proposal,
  list_policy_proposals,
}
use luheng_fulfillops_cloud.Policy.Publishing.{RoundsBelow}
use luheng_fulfillops_cloud.Policy.Machine.{standing, standing_of, PolicyRun}
use luheng_fulfillops_cloud.Policy.Runs.{
  Wrote, Approved, PolicyOperation, create_one, decide_one, run_policies, run_policies-PolicyRun,
  version_of, run_policies_version,
}

abbrev tables : PolicyDb
tables = record {
  packages =
      record {
        tenant_id = 1;
        package_id = 7;
        policy_status = PolicyStatus.draft;
        policy_version = 1;
        budget_limit_yuan = 30 * yuan;
        min_settlement_bps = 7000;
        max_installments = 6;
        min_down_payment_bps = 2000;
      }
      ∷ [];
  cases = [];
  proposals = [];
  next_id = 3;
}

abbrev round_half_up : ℕ → ℕ
round_half_up b = (b + 5000) / 10000 * 10000

round_half_up-RoundsBelow : RoundsBelow round_half_up
round_half_up-RoundsBelow b h = omega (arith, h)

abbrev evidence_hash : PolicyEvidence → ℕ
evidence_hash e = e.case_count + e.expected_policy_version

abbrev request : PolicyRequest
request = record {
  tenant_id = 1;
  actor_id = 5;
  package_id = 7;
  expected_policy_version = 1;
  budget_limit_yuan = 40 * yuan + 6000;
  min_settlement_bps = 6000;
  max_installments = 12;
  min_down_payment_bps = 1000;
  proposal_reason = codes "more time";
}

-- Its author cannot approve the proposal, a second person can.
abbrev approved_run : List PolicyOperation
approved_run =
    create_one request 10
    ∷ decide_one 1 5 3 approve 1 (codes "mine") 20
    ∷ decide_one 1 8 3 approve 1 (codes "agreed") 30
    ∷ []

abbrev rejected_run : List PolicyOperation
rejected_run = create_one request 10 ∷ decide_one 1 8 3 reject 1 (codes "too long") 20 ∷ []

-- The second version of the policy is the one that was proposed.
approved_version :
    version_of (standing_of 1 7 (run_policies evidence_hash round_half_up approved_run tables)) ≡ 2
unfolding standing_of standing find_package create_policy_proposal new_proposal proposed_parameters
    reviewed_proposal apply_decision decide_policy_proposal
approved_version = refl

run_policies-PolicyRun_example :
    PolicyRun
      (Wrote evidence_hash round_half_up approved_run tables 1 7)
      (Approved evidence_hash round_half_up approved_run 1)
      (standing_of 1 7 tables)
      (standing_of 1 7 (run_policies evidence_hash round_half_up approved_run tables))
run_policies-PolicyRun_example =
    run_policies-PolicyRun evidence_hash round_half_up round_half_up-RoundsBelow approved_run tables
      tt 1 7

same_version :
    version_of (standing_of 1 7 (run_policies evidence_hash round_half_up rejected_run tables))
    ≡ version_of (standing_of 1 7 tables)
unfolding standing_of standing find_package create_policy_proposal new_proposal proposed_parameters
    reviewed_proposal apply_decision decide_policy_proposal
same_version = refl

run_policies_version_example :
    standing_of 1 7 (run_policies evidence_hash round_half_up rejected_run tables)
    ≡ standing_of 1 7 tables
run_policies_version_example =
    run_policies_version evidence_hash round_half_up round_half_up-RoundsBelow rejected_run tables
      tt 1 7 same_version

-- Its author's own review is refused.
own_review :
    decide_policy_proposal 1 5 3 approve 1
      (codes "mine")
      20
      (run_policies evidence_hash round_half_up (create_one request 10 ∷ []) tables)
    ≡ err self_review_forbidden
unfolding find_package create_policy_proposal new_proposal proposed_parameters
    decide_policy_proposal
own_review = refl

listed :
    length (
      list_policy_proposals
        (run_policies evidence_hash round_half_up (create_one request 10 ∷ []) tables)
        1
        (some 7))
    ≡ 1
unfolding find_package create_policy_proposal new_proposal proposed_parameters list_policy_proposals
    order_by
listed = refl
