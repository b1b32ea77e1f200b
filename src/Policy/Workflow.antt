-- ===== src/Policy/Workflow.antt =====
-- The operations of backend/app/policy_workflow.py. The hash of the evidence and Python's rounding of a
-- budget to two decimals are parameters.
use luheng_fulfillops_cloud.Base.{
  ℕ, ◌+◌, ◌*◌, ◌&&◌, Bool, not, Option, none, some, List, [], ◌∷◌, ◌++◌, ltb, leb, ◌==◌, first,
  update, select, count_by, order_by, is_some, Text, Result, ok, ◌>>=◌, ◌>>◌, raise_if, or_raise,
}
use luheng_fulfillops_cloud.Cases.{CaseRecord, AssetPackage, published, Decision, approve, is_known}
use luheng_fulfillops_cloud.Policy.Rows.{
  pending_review, approved, rejected, is_undecided, PolicyParameters, PolicyProposal, PolicyCode,
  package_not_found, policy_version_conflict, pending_review_exists, invalid_budget,
  invalid_settlement, invalid_installments, invalid_down_payment, proposal_not_found,
  proposal_closed, proposal_version_conflict, self_review_forbidden, invalid_decision, PolicyDb,
}

abbrev pub yuan : ℕ
yuan = 1000000

pub record PolicyRequest : Type 0 where
  pub tenant_id : ℕ
  pub actor_id : ℕ
  pub package_id : ℕ
  pub expected_policy_version : ℕ
  pub budget_limit_yuan : ℕ
  pub min_settlement_bps : ℕ
  pub max_installments : ℕ
  pub min_down_payment_bps : ℕ
  pub proposal_reason : Text

-- What the digest of a proposal is taken of.
pub record PolicyEvidence : Type 0 where
  pub tenant_id : ℕ
  pub package_id : ℕ
  pub expected_policy_version : ℕ
  pub policy : PolicyParameters
  pub case_count : ℕ

abbrev pub is_package : ℕ → ℕ → AssetPackage → Bool
is_package tenant_id package_id p = p.tenant_id == tenant_id && p.package_id == package_id

unfoldable pub find_package : PolicyDb → ℕ → ℕ → Option AssetPackage
find_package db tenant_id package_id = first (is_package tenant_id package_id) db.packages

abbrev pub is_pending_for : ℕ → ℕ → PolicyProposal → Bool
is_pending_for tenant_id package_id p =
    p.tenant_id == tenant_id && p.package_id == package_id && is_undecided p.status

abbrev of_tenant : ℕ → Option ℕ → PolicyProposal → Bool
of_tenant tenant_id none p = p.tenant_id == tenant_id
of_tenant tenant_id (some package_id) p = p.tenant_id == tenant_id && p.package_id == package_id

-- The newest proposals first.
unfoldable pub list_policy_proposals : PolicyDb → ℕ → Option ℕ → List PolicyProposal
list_policy_proposals db tenant_id package_id =
    order_by (λ (p q : PolicyProposal). leb q.created_at p.created_at)
      (select (of_tenant tenant_id package_id) db.proposals)

unfoldable pub proposed_parameters : (ℕ → ℕ) → PolicyRequest → PolicyParameters
proposed_parameters round_cents r = record {
  budget_limit_yuan = round_cents r.budget_limit_yuan;
  min_settlement_bps = r.min_settlement_bps;
  max_installments = r.max_installments;
  min_down_payment_bps = r.min_down_payment_bps;
}

unfoldable pub new_proposal :
    (PolicyEvidence → ℕ) → (ℕ → ℕ) → PolicyRequest → (case_count id now : ℕ) → PolicyProposal
new_proposal digest_of round_cents r case_count id now = record {
  id = id;
  tenant_id = r.tenant_id;
  package_id = r.package_id;
  status = pending_review;
  version = 1;
  expected_policy_version = r.expected_policy_version;
  proposed_policy = proposed_parameters round_cents r;
  case_count = case_count;
  evidence_digest = digest_of (record {
    tenant_id = r.tenant_id;
    package_id = r.package_id;
    expected_policy_version = r.expected_policy_version;
    policy = proposed_parameters round_cents r;
    case_count = case_count;
  });
  proposed_by = r.actor_id;
  proposal_reason = r.proposal_reason;
  reviewed_by = none;
  review_note = none;
  created_at = now;
  reviewed_at = none;
}

abbrev in_package : PolicyRequest → CaseRecord → Bool
in_package r c = c.tenant_id == r.tenant_id && c.package_id == r.package_id

unfoldable pub create_policy_proposal :
    (PolicyEvidence → ℕ)
    → (ℕ → ℕ)
    → PolicyRequest
    → ℕ
    → PolicyDb
    → Result PolicyCode (PolicyProposal × PolicyDb)
create_policy_proposal digest_of round_cents r now db = do
  pack ← or_raise (find_package db r.tenant_id r.package_id) package_not_found
  raise_if (not (pack.policy_version == r.expected_policy_version)) policy_version_conflict
  raise_if (is_some (first (is_pending_for r.tenant_id r.package_id) db.proposals))
      pending_review_exists
  raise_if (not (ltb 0 r.budget_limit_yuan && leb r.budget_limit_yuan (100000 * yuan)))
      invalid_budget
  raise_if (not (leb 1000 r.min_settlement_bps && leb r.min_settlement_bps 10000))
      invalid_settlement
  raise_if (not (leb 1 r.max_installments && leb r.max_installments 60)) invalid_installments
  raise_if (not (leb 0 r.min_down_payment_bps && leb r.min_down_payment_bps 10000))
      invalid_down_payment
  let p = new_proposal digest_of round_cents r (count_by (in_package r) db.cases) db.next_id now
  ok (p, record db { proposals = db.proposals ++ p ∷ []; next_id = db.next_id + 1 })

unfoldable pub reviewed_proposal : PolicyProposal → ℕ → Text → ℕ → PolicyProposal
reviewed_proposal p actor_id review_note now = record p {
  reviewed_by = some actor_id;
  review_note = some review_note;
  reviewed_at = some now;
  version = p.version + 1;
}

abbrev pub publish_policy : PolicyParameters → AssetPackage → AssetPackage
publish_policy policy pack = record pack {
  budget_limit_yuan = policy.budget_limit_yuan;
  min_settlement_bps = policy.min_settlement_bps;
  max_installments = policy.max_installments;
  min_down_payment_bps = policy.min_down_payment_bps;
  policy_version = pack.policy_version + 1;
  policy_status = published;
}

abbrev pub store_review : PolicyProposal → List PolicyProposal → List PolicyProposal
store_review p = update (λ (q : PolicyProposal). q.id == p.id) (λ _. p)

-- What a valid decision writes. A decision that is known and does not approve rejects.
unfoldable pub apply_decision : Decision → PolicyProposal → PolicyDb → PolicyProposal × PolicyDb
apply_decision approve p db =
    let done : PolicyProposal = record p { status = approved } in
    (
      done,
      record db {
        proposals = store_review done db.proposals;
        packages =
            update (is_package p.tenant_id p.package_id) (publish_policy p.proposed_policy)
              db.packages;
      },
    )
apply_decision _ p db =
    let done : PolicyProposal = record p { status = rejected } in
    (done, record db { proposals = store_review done db.proposals })

unfoldable pub decide_policy_proposal :
    (tenant_id actor_id proposal_id : ℕ)
    → Decision
    → (expected_version : ℕ) → Text
    → ℕ
    → PolicyDb
    → Result PolicyCode (PolicyProposal × PolicyDb)
decide_policy_proposal tenant_id actor_id proposal_id decision expected_version review_note now db =
    do
      p ←
          or_raise
            (first (λ (q : PolicyProposal). q.id == proposal_id && q.tenant_id == tenant_id)
              db.proposals)
            proposal_not_found
      raise_if (not (is_undecided p.status)) proposal_closed
      raise_if (not (p.version == expected_version)) proposal_version_conflict
      raise_if (p.proposed_by == actor_id) self_review_forbidden
      raise_if (not (is_known decision)) invalid_decision
      pack ← or_raise (find_package db tenant_id p.package_id) package_not_found
      raise_if (not (pack.policy_version == p.expected_policy_version)) policy_version_conflict
      ok (apply_decision decision (reviewed_proposal p actor_id review_note now) db)
