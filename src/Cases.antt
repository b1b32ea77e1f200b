-- ===== src/Cases.antt =====
-- The rows of backend/app/models.py that several components read and write: cases, their financial
-- profiles, asset packages and the audit trail. Row keys, tenants, actors and packages are only
-- compared and are numbers; case and plan numbers are texts, which the program trims and raises
-- to upper case.
use luheng_fulfillops_cloud.Base.{ℕ, Bool, true, false, Option, Text}

-- The values of `CaseRecord.status` that the program writes or tests; the column is free text, and
-- `other` stands for the rest of them.
pub data CaseStatus : Type 0 where
  awaiting_contact plan_to_sign payment_to_match payment_failed payment_processing : CaseStatus
  natural_recovery recovery_confirmed settled period_paid performing to_reassess : CaseStatus
  dispute_paused stop_contact identity_check mandate_expired data_missing : CaseStatus
  amount_check authorization_missing number_missing budget_exhausted channel_error : CaseStatus
  other : ℕ → CaseStatus

pub record CaseRecord : Type 0 where
  pub tenant_id : ℕ
  pub case_id : Text
  pub package_id : ℕ
  pub status : CaseStatus
  pub blocked : Bool
  pub has_signed_plan : Bool
  pub contact_basis_ref : Option ℕ
  pub version : ℕ

pub record CaseFinancialProfile : Type 0 where
  pub tenant_id : ℕ
  pub case_id : Text
  pub commission_rule_id : ℕ
  pub claim_balance_cents : ℕ
  pub mandate_start : ℕ
  pub mandate_end : ℕ
  pub signed_plan_at : Option ℕ
  pub signed_plan_last_due : Option ℕ
  pub signed_plan_tail_eligible : Bool

pub data PolicyStatus : Type 0 where
  draft published : PolicyStatus

pub record AssetPackage : Type 0 where
  pub tenant_id : ℕ
  pub package_id : ℕ
  pub policy_status : PolicyStatus
  pub policy_version : ℕ
  pub budget_limit_yuan : ℕ
  pub min_settlement_bps : ℕ
  pub max_installments : ℕ
  pub min_down_payment_bps : ℕ

-- The decision of a reviewer; `unknown` stands for any other text.
pub data Decision : Type 0 where
  approve reject unknown : Decision

abbrev pub is_known : Decision → Bool
is_known unknown = false
is_known _ = true
