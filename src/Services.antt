-- ===== src/Services.antt =====
-- The services that a tenant connects, and whether their use is enabled: `ServiceConfig` and
-- `IntegrationState` of backend/app/models.py, rows that contacts and activities are gated by.
use luheng_fulfillops_cloud.Base.{ℕ, Bool, true, false, Option, List, Text, ◌==◌}

-- `service_type`; `other_service` stands for the other texts.
pub data ServiceType : Type 0 where
  agent model voice phone : ServiceType
  other_service : ℕ → ServiceType

abbrev pub service_eq : ServiceType → ServiceType → Bool
service_eq agent agent = true
service_eq model model = true
service_eq voice voice = true
service_eq phone phone = true
service_eq (other_service a) (other_service b) = a == b
service_eq _ _ = false

-- `settings`: each key with its value as `str` prints it.
abbrev pub Settings : Type 0
Settings = List (Text × Text)

pub record ServiceConfig : Type 0 where
  pub tenant_id : ℕ
  pub service_type : ServiceType
  pub provider : ℕ
  pub settings : Settings
  pub secret_ref : Option ℕ
  pub version : ℕ
  pub saved : Bool
  pub connected : Bool

-- A map from types of services to versions, as the column of JSON holds it.
abbrev pub ServiceVersions : Type 0
ServiceVersions = List (ServiceType × ℕ)

pub record IntegrationState : Type 0 where
  pub tenant_id : ℕ
  pub enabled : Bool
  pub last_self_test_id : Option ℕ
  pub enabled_at : Option ℕ
  pub enabled_by : Option ℕ
  pub enabled_service_versions : Option ServiceVersions
