-- ===== src/Gate/Examples.antt =====
-- A tenant whose four services are tested and enabled, and an activity: runs, and the theorems at them.
use luheng_fulfillops_cloud.Base.{
  In, ℕ, ◌≡◌, refl, Bool, true, false, none, some, Option, [], ◌∷◌, arith, codes, text_eq, ok, err,
  Returned, length, All, Result,
}
use luheng_fulfillops_cloud.Cases.{CaseRecord, PolicyStatus, awaiting_contact}
use luheng_fulfillops_cloud.Services.{
  ServiceType, ServiceConfig, agent, model, voice, phone, Settings,
}
use luheng_fulfillops_cloud.Gate.Rows.{GateDb, unknown_service, GateCode}
use luheng_fulfillops_cloud.Gate.Services.{
  configs_of, service_versions, version_in, put_version, versions_match, gate_for,
  build_self_test_items, validate_service_settings,
}
use luheng_fulfillops_cloud.Gate.Integration.{
  run_connection_test, passes, run_self_test, self_test_report, put_state, enable_integrations,
  ServiceUpsert, save_service,
}
use luheng_fulfillops_cloud.Gate.Readiness.{IsRefused, save_service_closes}
use luheng_fulfillops_cloud.Gate.Opening.{enable_after_self_test}
use luheng_fulfillops_cloud.Gate.Preflight.{
  PreflightDb, PreflightRequest, Preflight, first_contact, auto_mode, activity_preflight,
  goal_matches, exclusion_reason, preflight_result, ResolvedMode, PreflightCode,
}
use luheng_fulfillops_cloud.Gate.Selection.{
  MayTake, IsListed, MayUseChannels, activity_preflight_sound,
}
use luheng_fulfillops_cloud.Ledger.Rows.{RuleStatus}

abbrev service : ServiceType → ServiceConfig
service k = record {
  tenant_id = 1;
  service_type = k;
  provider = 8;
  settings = [];
  secret_ref = some 2;
  version = 3;
  saved = true;
  connected = true;
}

abbrev tables : GateDb
tables = record {
  configs = service agent ∷ service model ∷ service voice ∷ service phone ∷ [];
  states = [];
  reports = [];
  next_id = 6;
}

all_pass : passes (configs_of tables 1) ≡ true
unfolding build_self_test_items
all_pass = refl

four_types : length (service_versions (configs_of tables 1)) ≡ 4
unfolding service_versions put_version
four_types = refl

enable_after_self_test_example :
    (db' : GateDb) × (enable_integrations 1 5 true 150 (run_self_test 1 100 tables) ≡ ok db')
    × ((gate_for db' 1 200).ready ≡ true)
enable_after_self_test_example =
    enable_after_self_test 1 5 100 150 200 tables all_pass refl four_types refl (omega arith)
      (omega arith)

abbrev reached : GateDb → Result GateCode GateDb → GateDb
reached db (ok d) = d
reached db (err _) = db

abbrev enabled : GateDb
enabled = reached tables (enable_integrations 1 5 true 150 (run_self_test 1 100 tables))

enabled_ready : (gate_for enabled 1 200).ready ≡ true
unfolding gate_for run_self_test self_test_report put_state enable_integrations service_versions
    put_version versions_match version_in build_self_test_items
enabled_ready = refl

abbrev any_policy : ℕ → Settings → Bool
any_policy provider settings = true

abbrev new_secret : ℕ → Option ℕ → Option ℕ
new_secret credential previous = some credential

abbrev upsert : ServiceUpsert
upsert = record {
  tenant_id = 1;
  service_type = agent;
  provider = 9;
  settings =
      (codes "endpoint", codes "e")
      ∷ (codes "profile", codes "p")
      ∷ (codes "approval", codes "a")
      ∷ [];
  credential = none;
}

save_service_closes_example :
    Returned
      (λ (db' : GateDb).
        ((gate_for db' 1 200).ready ≡ false)
        × IsRefused (enable_integrations 1 5 true 210 (run_self_test 1 200 db'))
        × Returned
            (λ (tested : GateDb). IsRefused (enable_integrations 1 5 true 210 tested))
            (run_connection_test (λ _. true) 1 agent db'))
      (save_service any_policy new_secret upsert enabled)
save_service_closes_example =
    save_service_closes any_policy new_secret upsert enabled (λ _. true) agent 5 200 210

-- A setting that carries a credential, and one that is missing, are refused.
no_such_service : validate_service_settings (ServiceType.other_service 1) [] ≡ err unknown_service
unfolding validate_service_settings
no_such_service = refl

abbrev activity_tables : PreflightDb
activity_tables = record {
  gate = enabled;
  packages =
      record {
        tenant_id = 1;
        package_id = 7;
        policy_status = PolicyStatus.published;
        policy_version = 1;
        budget_limit_yuan = 30000000;
        min_settlement_bps = 7000;
        max_installments = 6;
        min_down_payment_bps = 2000;
      }
      ∷ [];
  cases =
      record {
        tenant_id = 1;
        case_id = codes "C1";
        package_id = 7;
        status = awaiting_contact;
        blocked = false;
        has_signed_plan = false;
        contact_basis_ref = some 4;
        version = 1;
      }
      ∷ [];
  profiles =
      record {
        tenant_id = 1;
        case_id = codes "C1";
        commission_rule_id = 3;
        claim_balance_cents = 100;
        mandate_start = 10;
        mandate_end = 20;
        signed_plan_at = none;
        signed_plan_last_due = none;
        signed_plan_tail_eligible = false;
      }
      ∷ [];
  rules =
      record {
        tenant_id = 1;
        rule_id = 3;
        package_id = 7;
        version = 1;
        rate_bps = 1000;
        status = RuleStatus.active;
      }
      ∷ [];
  activities = [];
}

abbrev activity : PreflightRequest
activity = record {
  tenant_id = 1;
  package_id = 7;
  goal = first_contact;
  budget_yuan = 20000000;
  case_ids = codes "C1" ∷ codes "C2" ∷ [];
  requested_mode = auto_mode;
}

abbrev mode_of : Result PreflightCode Preflight → ResolvedMode
mode_of (ok w) = w.resolved_mode
mode_of (err _) = ResolvedMode.sandbox

-- The case may be contacted over the channels.
over_channels : mode_of (activity_preflight activity_tables activity 15 200) ≡ ResolvedMode.channel
unfolding activity_preflight preflight_result exclusion_reason goal_matches text_eq gate_for
    run_self_test self_test_report put_state enable_integrations service_versions put_version
    versions_match version_in build_self_test_items
over_channels = refl

activity_preflight_sound_example :
    Returned
      (λ (w : Preflight).
        All
          (λ i.
            (c : CaseRecord) × In c activity_tables.cases
            × (c.case_id ≡ i)
            × MayTake activity_tables activity 15 c)
          w.eligible_case_ids
        × All (λ i. IsListed i w.eligible_case_ids w.excluded) activity.case_ids
        × MayUseChannels activity_tables activity 200 w)
      (activity_preflight activity_tables activity 15 200)
activity_preflight_sound_example = activity_preflight_sound activity_tables activity 15 200
