-- ===== src/Policy/Rows.antt =====
-- The tables of policy proposals and their errors: `PolicyProposal` of backend/app/models.py. A budget
-- is a number of micro-yuan, so that the amounts that a request may have are whole; what is negative
-- is refused as zero is.
use luheng_fulfillops_cloud.Base.{ℕ, Bool, true, false, Option, List, Text}
use luheng_fulfillops_cloud.Cases.{CaseRecord, AssetPackage}

pub data ProposalStatus : Type 0 where
  pending_review approved rejected : ProposalStatus

abbrev pub is_undecided : ProposalStatus → Bool
is_undecided pending_review = true
is_undecided _ = false

-- `policy`, the column `proposed_policy`.
pub record PolicyParameters : Type 0 where
  pub budget_limit_yuan : ℕ
  pub min_settlement_bps : ℕ
  pub max_installments : ℕ
  pub min_down_payment_bps : ℕ

-- `case_count` is the entry of `evaluation` that is not constant.
pub record PolicyProposal : Type 0 where
  pub id : ℕ
  pub tenant_id : ℕ
  pub package_id : ℕ
  pub status : ProposalStatus
  pub version : ℕ
  pub expected_policy_version : ℕ
  pub proposed_policy : PolicyParameters
  pub case_count : ℕ
  pub evidence_digest : ℕ
  pub proposed_by : ℕ
  pub proposal_reason : Text
  pub reviewed_by : Option ℕ
  pub review_note : Option Text
  pub created_at : ℕ
  pub reviewed_at : Option ℕ

pub data PolicyCode : Type 0 where
  package_not_found policy_version_conflict pending_review_exists invalid_budget : PolicyCode
  invalid_settlement invalid_installments invalid_down_payment proposal_not_found : PolicyCode
  proposal_closed proposal_version_conflict self_review_forbidden invalid_decision : PolicyCode

pub record PolicyDb : Type 0 where
  pub packages : List AssetPackage
  pub cases : List CaseRecord
  pub proposals : List PolicyProposal
  pub next_id : ℕ
