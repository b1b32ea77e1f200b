-- ===== src/Gate/Integration.antt =====
-- The routes of backend/app/main.py that save a service, test its connection, run the self-test and enable
-- the services. The check of the model's policy, the store of secrets and the connections are
-- parameters; the roles of the caller are checked before.
use luheng_fulfillops_cloud.Base.{
  ℕ, ◌+◌, ◌*◌, ◌&&◌, Bool, true, false, not, Option, none, some, List, [], ◌∷◌, ◌++◌, ◌==◌,
  if◌then◌else◌, first, all, update, length, is_some, hour, Result, ok, ◌>>=◌, ◌>>◌, raise_if,
  or_raise,
}
use luheng_fulfillops_cloud.Services.{
  ServiceType, model, service_eq, Settings, ServiceConfig, ServiceVersions, IntegrationState,
}
use luheng_fulfillops_cloud.Gate.Rows.{
  report_passed, report_blocked, SelfTestReport, GateCode, unknown_service, model_policy_invalid,
  secret_not_stored, credential_required, not_acknowledged, config_missing, test_failed,
  gate_closed, GateDb,
}
use luheng_fulfillops_cloud.Gate.Services.{
  required_settings, validate_service_settings, service_versions, configs_of, is_state, gate_for,
  invalidate_integration, build_self_test_items, Gate,
}

-- `IntegrationState(tenant_id=tenant_id)`
abbrev pub blank_state : ℕ → IntegrationState
blank_state tenant_id = record {
  tenant_id = tenant_id;
  enabled = false;
  last_self_test_id = none;
  enabled_at = none;
  enabled_by = none;
  enabled_service_versions = none;
}

-- `db.get(IntegrationState, tenant_id) or IntegrationState(tenant_id=tenant_id)`, and the writes to it.
unfoldable pub put_state :
    ℕ → (IntegrationState → IntegrationState) → List IntegrationState → List IntegrationState
put_state tenant_id f states =
    if is_some (first (is_state tenant_id) states)
    then update (is_state tenant_id) f states
    else states ++ f (blank_state tenant_id) ∷ []

abbrev pub is_service : ℕ → ServiceType → ServiceConfig → Bool
is_service tenant_id service_type c =
    c.tenant_id == tenant_id && service_eq c.service_type service_type

pub record ServiceUpsert : Type 0 where
  pub tenant_id : ℕ
  pub service_type : ServiceType
  pub provider : ℕ
  pub settings : Settings
  pub credential : Option ℕ

abbrev pub is_model : ServiceType → Bool
is_model model = true
is_model _ = false

-- The row of the service, added where there is none.
abbrev pub add_service : ServiceUpsert → List ServiceConfig → List ServiceConfig
add_service r configs =
    if is_some (first (is_service r.tenant_id r.service_type) configs)
    then configs
    else configs
      ++ record {
        tenant_id = r.tenant_id;
        service_type = r.service_type;
        provider = r.provider;
        settings = [];
        secret_ref = none;
        version = 1;
        saved = true;
        connected = false;
      }
        ∷ []

module _ (model_policy_settings : ℕ → Settings → Bool)
    (store_secret : (credential : ℕ) → (previous : Option ℕ) → Option ℕ) where
  -- The reference to the secret, after a credential of the request is stored.
  abbrev pub next_secret : ServiceUpsert → Option ℕ → Result GateCode ℕ
  next_secret r previous = elim r.credential [
    | some credential ↦ or_raise (store_secret credential previous) secret_not_stored
    | none ↦ or_raise previous credential_required
  ]

  unfoldable pub save_service : ServiceUpsert → GateDb → Result GateCode GateDb
  save_service r db = do
    validate_service_settings r.service_type r.settings
    raise_if (is_model r.service_type && not (model_policy_settings r.provider r.settings))
        model_policy_invalid
    let configs = add_service r db.configs
    config ← or_raise (first (is_service r.tenant_id r.service_type) configs) config_missing
    secret ← next_secret r config.secret_ref
    ok (record db {
      configs =
          update (is_service r.tenant_id r.service_type)
            (λ (c : ServiceConfig). record c {
              secret_ref = some secret;
              provider = r.provider;
              settings = r.settings;
              version = c.version + 1;
              saved = true;
              connected = false;
            })
            configs;
      states = put_state r.tenant_id invalidate_integration db.states;
    })

-- `test_service` is whether the connection of the service answers.
unfoldable pub run_connection_test :
    (ServiceConfig → Bool) → ℕ → ServiceType → GateDb → Result GateCode GateDb
run_connection_test test_service tenant_id service_type db = do
  raise_if (not (is_some (required_settings service_type))) unknown_service
  config ← or_raise (first (is_service tenant_id service_type) db.configs) config_missing
  validate_service_settings service_type config.settings
  raise_if (not (is_some config.secret_ref)) credential_required
  raise_if (not (test_service config)) test_failed
  ok (record db {
    configs =
        update (is_service tenant_id service_type)
          (λ (c : ServiceConfig). record c { connected = true }) db.configs;
  })

abbrev pub passes : List ServiceConfig → Bool
passes configs = length configs == 4 && all (λ b. b) (build_self_test_items configs)

unfoldable pub self_test_report : List ServiceConfig → (tenant_id id now : ℕ) → SelfTestReport
self_test_report configs tenant_id id now = record {
  id = id;
  tenant_id = tenant_id;
  status = if passes configs then report_passed else report_blocked;
  service_versions = service_versions configs;
  created_at = now;
  expires_at = now + 24 * hour;
}

abbrev pub tested_state : ℕ → IntegrationState → IntegrationState
tested_state report_id s = record s {
  last_self_test_id = some report_id;
  enabled = false;
  enabled_at = none;
  enabled_by = none;
  enabled_service_versions = none;
}

unfoldable pub run_self_test : (tenant_id now : ℕ) → GateDb → GateDb
run_self_test tenant_id now db = record db {
  reports = db.reports ++ self_test_report (configs_of db tenant_id) tenant_id db.next_id now ∷ [];
  states = put_state tenant_id (tested_state db.next_id) db.states;
  next_id = db.next_id + 1;
}

abbrev pub enabled_state :
    ServiceVersions → (actor_id now : ℕ) → IntegrationState → IntegrationState
enabled_state versions actor_id now s = record s {
  enabled = true;
  enabled_at = some now;
  enabled_by = some actor_id;
  enabled_service_versions = some versions;
}

abbrev pub may_enable : Gate → Bool
may_enable g = g.all_saved && g.all_connected && g.report_current && g.report_fresh

-- Where the gate is open, the tenant has a state.
unfoldable pub enable_integrations :
    (tenant_id actor_id : ℕ) → Bool → ℕ → GateDb → Result GateCode GateDb
enable_integrations tenant_id actor_id acknowledged now db = do
  raise_if (not acknowledged) not_acknowledged
  raise_if (not (may_enable (gate_for db tenant_id now))) gate_closed
  ok (record db {
    states =
        update (is_state tenant_id)
          (enabled_state (service_versions (configs_of db tenant_id)) actor_id now) db.states;
  })
