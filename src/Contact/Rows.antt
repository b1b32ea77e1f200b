-- ===== src/Contact/Rows.antt =====
-- The tables of contacts, `ContactAttempt` and `TelephonyEvent` of backend/app/models.py, the policy that
-- the environment sets, and the errors.
use luheng_fulfillops_cloud.Base.{ℕ, Bool, true, false, Option, List, Text}
use luheng_fulfillops_cloud.Base.Int.{ℤ}
use luheng_fulfillops_cloud.Cases.{CaseRecord}
use luheng_fulfillops_cloud.Services.{ServiceConfig, IntegrationState}

pub data AttemptStatus : Type 0 where
  queued initiated ringing answered completed failed handoff blocked : AttemptStatus

-- `status in {"completed", "failed", "blocked"}`
abbrev pub is_ended : AttemptStatus → Bool
is_ended completed = true
is_ended failed = true
is_ended blocked = true
is_ended _ = false

abbrev pub is_blocked : AttemptStatus → Bool
is_blocked blocked = true
is_blocked _ = false

abbrev pub is_failed : AttemptStatus → Bool
is_failed failed = true
is_failed _ = false

-- Identifiers of attempts, activities and references are only compared.
pub record ContactAttempt : Type 0 where
  pub id : ℕ
  pub tenant_id : ℕ
  pub case_id : Text
  pub activity_id : Option ℕ
  pub channel : Text
  pub contact_reference : ℕ
  pub status : AttemptStatus
  pub scheduled_at : ℕ
  pub requested_by : ℕ
  pub handoff_reason : Option Text
  pub handoff_requested_by : Option ℕ
  pub handoff_requested_at : Option ℕ
  pub retry_of_id : Option ℕ
  pub cancelled_by : Option ℕ
  pub cancelled_at : Option ℕ
  pub cancel_reason : Option Text
  pub last_event_at : Option ℕ

-- The members of `ALLOWED_EVENTS`; `other_event` stands for any other text.
pub data EventType : Type 0 where
  event_initiated event_ringing event_answered event_completed event_failed : EventType
  other_event : EventType

pub record TelephonyEvent : Type 0 where
  pub tenant_id : ℕ
  pub provider : ℕ
  pub provider_event_id : ℕ
  pub call_reference : ℕ
  pub event_type : EventType
  pub occurred_at : ℕ
  pub case_id : Option Text
  pub activity_id : Option ℕ
  pub failure_code : Option ℕ
  pub payload_digest : ℕ
  pub signature_digest : ℕ
  pub duplicate_count : ℕ

-- The environment: each number is nothing where `int` raises.
pub record Environment : Type 0 where
  pub max_attempts_per_case_day : Option ℤ
  pub window_start_utc_hour : Option ℤ
  pub window_end_utc_hour : Option ℤ
  pub sandbox_channels : Text

pub data ContactCode : Type 0 where
  invalid_contact_policy case_not_found case_protected contact_basis_missing : ContactCode
  phone_not_ready channel_not_ready outside_contact_window : ContactCode
  daily_frequency_exceeded attempt_not_found attempt_terminal attempt_not_failed : ContactCode

pub data TelephonyCode : Type 0 where
  invalid_timestamp stale_webhook provider_not_ready secret_unavailable : TelephonyCode
  invalid_signature idempotency_conflict event_type_denied attempt_scope_mismatch : TelephonyCode

pub record ContactDb : Type 0 where
  pub cases : List CaseRecord
  pub attempts : List ContactAttempt
  pub events : List TelephonyEvent
  pub configs : List ServiceConfig
  pub states : List IntegrationState
  pub next_id : ℕ
