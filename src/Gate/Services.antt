-- ===== src/Gate/Services.antt =====
-- The checks of backend/app/domain.py on services: their settings, their versions and the gate.
use luheng_fulfillops_cloud.Base.{
  ℕ, ◌&&◌, Bool, false, Option, none, some, List, [], ◌∷◌, ltb, ◌==◌, if◌then◌else◌, first, any,
  all, select, length, option_eq, map, Text, text_eq, strip, lower, codes, Result, err, ◌>>◌,
  raise_if,
}
use luheng_fulfillops_cloud.Services.{
  ServiceType, agent, model, voice, phone, other_service, service_eq, Settings, ServiceConfig,
  ServiceVersions, IntegrationState,
}
use luheng_fulfillops_cloud.Gate.Rows.{
  SelfTestReport, is_passed, GateCode, unknown_service, credential_in_settings, settings_missing,
  GateDb,
}

-- `REQUIRED_SETTINGS.get(service_type)`
abbrev pub required_settings : ServiceType → Option (List Text)
required_settings agent = some (codes "endpoint" ∷ codes "profile" ∷ codes "approval" ∷ [])
required_settings model = some (codes "endpoint" ∷ codes "model" ∷ codes "timeout" ∷ [])
required_settings voice =
    some (codes "region" ∷ codes "asr" ∷ codes "tts" ∷ codes "sampleRate" ∷ [])
required_settings phone =
    some (codes "sipHost" ∷ codes "trunk" ∷ codes "callerId" ∷ codes "callback" ∷ [])
required_settings (other_service _) = none

unfoldable pub secret_keys : List Text
secret_keys =
    codes "secret"
    ∷ codes "password"
    ∷ codes "token"
    ∷ codes "api_key"
    ∷ codes "apikey"
    ∷ codes "access_key"
    ∷ codes "accesskey"
    ∷ codes "auth_token"
    ∷ []

-- `key.lower().replace("-", "_")`
abbrev normal_key : Text → Text
normal_key key = map (λ c. if c == 45 then 95 else c) (lower key)

-- `str(settings.get(key, "")).strip()`
abbrev setting : Settings → Text → Text
setting settings key = elim (first (λ (s : Text × Text). text_eq s.0 key) settings) [
  | some s ↦ strip s.1
  | none ↦ []
]

unfoldable pub validate_service_settings : ServiceType → Settings → Result GateCode (Unit {0})
validate_service_settings service_type settings = elim (required_settings service_type) [
  | none ↦ err unknown_service
  | some required ↦
      raise_if (any (λ (s : Text × Text). any (text_eq (normal_key s.0)) secret_keys) settings)
        credential_in_settings
      >> raise_if (any (λ key. text_eq (setting settings key) []) required) settings_missing
]

-- `dictionary.get(key)`
unfoldable pub version_in : ServiceType → ServiceVersions → Option ℕ
version_in k [] = none
version_in k ((s, v) ∷ rest) = if service_eq s k then some v else version_in k rest

-- `dictionary[key] = value`
unfoldable pub put_version : ServiceType → ℕ → ServiceVersions → ServiceVersions
put_version k v [] = (k, v) ∷ []
put_version k v ((s, w) ∷ rest) =
    if service_eq s k then (s, v) ∷ rest else (s, w) ∷ put_version k v rest

abbrev collect_versions : ServiceVersions → List ServiceConfig → ServiceVersions
collect_versions acc [] = acc
collect_versions acc (c ∷ cs) = collect_versions (put_version c.service_type c.version acc) cs

unfoldable pub service_versions : List ServiceConfig → ServiceVersions
service_versions configs = collect_versions [] configs

-- `(snapshot or {})`
abbrev pub or_empty : Option ServiceVersions → ServiceVersions
or_empty none = []
or_empty (some s) = s

abbrev pub same_version : ServiceVersions → ServiceVersions → ServiceType → Bool
same_version current snapshot k = option_eq (version_in k current) (version_in k snapshot)

unfoldable pub versions_match : List ServiceConfig → Option ServiceVersions → Bool
versions_match configs snapshot =
    let current = service_versions configs in
    length current == 4
    && all (same_version current (or_empty snapshot)) (agent ∷ model ∷ voice ∷ phone ∷ [])

-- `db.scalars(select(ServiceConfig).where(ServiceConfig.tenant_id == tenant_id))`
abbrev pub configs_of : GateDb → ℕ → List ServiceConfig
configs_of db tenant_id = select (λ (c : ServiceConfig). c.tenant_id == tenant_id) db.configs

abbrev pub is_state : ℕ → IntegrationState → Bool
is_state tenant_id s = s.tenant_id == tenant_id

abbrev pub is_report : ℕ → SelfTestReport → Bool
is_report id r = r.id == id

-- The report of the last self-test, `report`.
abbrev pub last_report : GateDb → Option IntegrationState → Option SelfTestReport
last_report db none = none
last_report db (some s) = elim s.last_self_test_id [
  | none ↦ none
  | some id ↦ first (is_report id) db.reports
]

abbrev pub report_matches : List ServiceConfig → Option SelfTestReport → Bool
report_matches configs none = false
report_matches configs (some r) =
    is_passed r.status && versions_match configs (some r.service_versions)

abbrev pub expires_later : ℕ → Option SelfTestReport → Bool
expires_later now none = false
expires_later now (some r) = ltb now r.expires_at

abbrev pub snapshot_matches : List ServiceConfig → Option IntegrationState → Bool
snapshot_matches configs none = false
snapshot_matches configs (some s) = s.enabled && versions_match configs s.enabled_service_versions

pub record Gate : Type 0 where
  pub all_saved : Bool
  pub all_connected : Bool
  pub report_current : Bool
  pub report_fresh : Bool
  pub enabled_snapshot_current : Bool
  pub ready : Bool

unfoldable pub gate_for : GateDb → (tenant_id now : ℕ) → Gate
gate_for db tenant_id now =
    let configs = configs_of db tenant_id in
    let state = first (is_state tenant_id) db.states in
    let report = last_report db state in
    let all_saved = length configs == 4 && all (λ (c : ServiceConfig). c.saved) configs in
    let all_connected = length configs == 4 && all (λ (c : ServiceConfig). c.connected) configs in
    let report_current = report_matches configs report in
    let report_fresh = report_current && expires_later now report in
    let snapshot_current = snapshot_matches configs state in
    record {
      all_saved = all_saved;
      all_connected = all_connected;
      report_current = report_current;
      report_fresh = report_fresh;
      enabled_snapshot_current = snapshot_current;
      ready = all_saved && all_connected && report_fresh && snapshot_current;
    }

unfoldable pub invalidate_integration : IntegrationState → IntegrationState
invalidate_integration s = record s {
  enabled = false;
  last_self_test_id = none;
  enabled_at = none;
  enabled_by = none;
  enabled_service_versions = none;
}

-- `connected.get(kind, False)`: where a kind is there twice, the last one counts.
abbrev pub connected_last : ServiceType → Bool → List ServiceConfig → Bool
connected_last k b [] = b
connected_last k b (c ∷ cs) =
    connected_last k (if service_eq c.service_type k then c.connected else b) cs

-- The statuses of the five items of the self-test: whether each is "passed".
unfoldable pub build_self_test_items : List ServiceConfig → List Bool
build_self_test_items configs =
    let is_up : ServiceType → Bool = λ k. connected_last k false configs in
    is_up agent
    ∷ is_up model
    ∷ is_up voice
    ∷ is_up phone
    ∷ (is_up agent && is_up model && is_up voice && is_up phone)
    ∷ []
