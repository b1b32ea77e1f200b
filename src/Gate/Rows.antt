-- ===== src/Gate/Rows.antt =====
-- The self-test's report and the tables of the gate, and the errors of its routes.
use luheng_fulfillops_cloud.Base.{ℕ, Bool, true, false, List}
use luheng_fulfillops_cloud.Services.{ServiceConfig, IntegrationState, ServiceVersions}

pub data ReportStatus : Type 0 where
  report_passed report_blocked : ReportStatus

abbrev pub is_passed : ReportStatus → Bool
is_passed report_passed = true
is_passed report_blocked = false

pub record SelfTestReport : Type 0 where
  pub id : ℕ
  pub tenant_id : ℕ
  pub status : ReportStatus
  pub service_versions : ServiceVersions
  pub created_at : ℕ
  pub expires_at : ℕ

pub data GateCode : Type 0 where
  unknown_service credential_in_settings settings_missing : GateCode
  model_policy_invalid secret_not_stored credential_required : GateCode
  not_acknowledged config_missing test_failed gate_closed : GateCode

pub record GateDb : Type 0 where
  pub configs : List ServiceConfig
  pub states : List IntegrationState
  pub reports : List SelfTestReport
  pub next_id : ℕ
