-- ===== src/Contact/Telephony.antt =====
-- backend/app/telephony.py: the events of calls that a provider signs. The secrets, the signature and the
-- hashes are parameters.
use luheng_fulfillops_cloud.Base.{
  ℕ, zero, suc, ◌+◌, ◌&&◌, Bool, true, false, not, Option, none, some, List, [], ◌∷◌, ◌++◌, ltb,
  leb, ◌==◌, if◌then◌else◌, first, update, option_eq, order_by, select, Text, text_eq, lower,
  Result, ok, ◌>>=◌, ◌>>◌, raise_if, or_raise,
}
use luheng_fulfillops_cloud.Base.Int.{ℤ, pos, abs, ◌-ℤ◌}
use luheng_fulfillops_cloud.Services.{ServiceConfig}
use luheng_fulfillops_cloud.Contact.Rows.{
  AttemptStatus, queued, initiated, ringing, answered, completed, failed, is_ended, ContactAttempt,
  EventType, event_initiated, event_ringing, event_answered, event_completed, event_failed,
  other_event, TelephonyEvent, TelephonyCode, invalid_timestamp, stale_webhook, provider_not_ready,
  secret_unavailable, invalid_signature, idempotency_conflict, event_type_denied,
  attempt_scope_mismatch, ContactDb,
}
use luheng_fulfillops_cloud.Contact.Attempts.{is_attempt}
use luheng_fulfillops_cloud.Contact.Channels.{phone_config}

pub record TelephonyPayload : Type 0 where
  pub event_id : ℕ
  pub call_reference : ℕ
  pub event_type : EventType
  pub occurred_at : ℕ
  pub case_id : Option Text
  pub activity_id : Option ℕ
  pub failure_code : Option ℕ

-- A request of the webhook. `issued_at` is `int(timestamp)`, nothing where that raises.
pub record TelephonyDelivery : Type 0 where
  pub tenant_id : ℕ
  pub provider : ℕ
  pub payload : TelephonyPayload
  pub raw_body : Text
  pub timestamp : Text
  pub issued_at : Option ℤ
  pub signature : Text

-- `ranks`, of the statuses that it has.
abbrev pub rank : AttemptStatus → Option ℕ
rank queued = some 0
rank initiated = some 1
rank ringing = some 2
rank answered = some 3
rank completed = some 4
rank failed = some 4
rank _ = none

-- `event_type in ALLOWED_EVENTS`, as the status that it sets.
abbrev pub status_of_event : EventType → Option AttemptStatus
status_of_event event_initiated = some initiated
status_of_event event_ringing = some ringing
status_of_event event_answered = some answered
status_of_event event_completed = some completed
status_of_event event_failed = some failed
status_of_event other_event = none

abbrev pub rank_le : Option ℕ → Option ℕ → Bool
rank_le (some a) (some b) = leb a b
rank_le _ _ = false

-- `status.in_(allowed)`
abbrev pub is_allowed : AttemptStatus → AttemptStatus → Bool
is_allowed status event = not (is_ended status) && rank_le (rank status) (rank event)

-- `last_event_at.is_(None) | (last_event_at <= occurred_at)`
abbrev pub not_later : Option ℕ → ℕ → Bool
not_later none t = true
not_later (some s) t = leb s t

abbrev pub advances : ℕ → ContactAttempt → AttemptStatus → ℕ → ContactAttempt → Bool
advances tenant_id attempt status occurred_at a =
    a.id == attempt.id
    && a.tenant_id == tenant_id
    && is_allowed a.status status
    && not_later a.last_event_at occurred_at

abbrev pub advance_attempt :
    ℕ → ContactAttempt → AttemptStatus → ℕ → List ContactAttempt → List ContactAttempt
advance_attempt tenant_id attempt status occurred_at =
    update (advances tenant_id attempt status occurred_at)
      (λ (a : ContactAttempt). record a { status = status; last_event_at = some occurred_at })

abbrev pub is_call_event : ℕ → ℕ → ℕ → TelephonyEvent → Bool
is_call_event tenant_id provider event_id e =
    e.tenant_id == tenant_id && e.provider == provider && e.provider_event_id == event_id

abbrev text_is : Option Text → Text → Bool
text_is none t = false
text_is (some s) t = text_eq s t

abbrev pub in_scope : TelephonyPayload → ContactAttempt → Bool
in_scope p a = text_is p.case_id a.case_id && option_eq p.activity_id a.activity_id

abbrev pub from_provider : ℕ → Option ServiceConfig → Option ℕ
from_provider provider none = none
from_provider provider (some c) =
    if c.provider == provider && c.connected then c.secret_ref else none

unfoldable pub new_event :
    TelephonyDelivery → (payload_digest signature_digest : ℕ) → TelephonyEvent
new_event d payload_digest signature_digest = record {
  tenant_id = d.tenant_id;
  provider = d.provider;
  provider_event_id = d.payload.event_id;
  call_reference = d.payload.call_reference;
  event_type = d.payload.event_type;
  occurred_at = d.payload.occurred_at;
  case_id = d.payload.case_id;
  activity_id = d.payload.activity_id;
  failure_code = d.payload.failure_code;
  payload_digest = payload_digest;
  signature_digest = signature_digest;
  duplicate_count = 0;
}

unfoldable pub store_event :
    TelephonyDelivery
    → TelephonyEvent
    → AttemptStatus
    → ContactDb
    → Result TelephonyCode (TelephonyEvent × Bool × ContactDb)
store_event d event status db =
    let events = db.events ++ event ∷ [] in
    elim (first (is_attempt d.tenant_id d.payload.call_reference) db.attempts) [
      | none ↦ ok (event, false, record db { events = events })
      | some attempt ↦
          raise_if (not (in_scope d.payload attempt)) attempt_scope_mismatch
          >> ok (
            event,
            false,
            record db {
              events = events;
              attempts =
                  advance_attempt d.tenant_id attempt status d.payload.occurred_at db.attempts;
            },
          )
    ]

unfoldable pub repeat_event :
    TelephonyEvent → ℕ → ContactDb → Result TelephonyCode (TelephonyEvent × Bool × ContactDb)
repeat_event existing payload_digest db = do
  raise_if (not (existing.payload_digest == payload_digest)) idempotency_conflict
  let counted : TelephonyEvent = record existing { duplicate_count = existing.duplicate_count + 1 }
  ok (
    counted,
    true,
    record db {
      events =
          update (is_call_event existing.tenant_id existing.provider existing.provider_event_id)
            (λ _. counted) db.events;
    },
  )

module _ (resolve_secret : (secret_ref tenant_id : ℕ) → Option Text)
    (sign : Text → Text → Text → Text) (digest : Text → ℕ) where
  -- `accepted.event` and `accepted.duplicate`, and the tables.
  unfoldable pub accept_telephony_webhook :
      TelephonyDelivery
      → (now_seconds : ℕ) → ContactDb
      → Result TelephonyCode (TelephonyEvent × Bool × ContactDb)
  accept_telephony_webhook d now_seconds db = do
    issued_at ← or_raise d.issued_at invalid_timestamp
    raise_if (ltb 300 (abs (pos now_seconds -ℤ issued_at))) stale_webhook
    secret_ref ←
        or_raise (from_provider d.provider (phone_config db d.tenant_id)) provider_not_ready
    secret ← or_raise (resolve_secret secret_ref d.tenant_id) secret_unavailable
    raise_if (not (text_eq (sign secret d.timestamp d.raw_body) (lower d.signature)))
        invalid_signature
    elim (first (is_call_event d.tenant_id d.provider d.payload.event_id) db.events) [
      | some existing ↦ repeat_event existing (digest d.raw_body) db
      | none ↦ or_raise (status_of_event d.payload.event_type) event_type_denied >>= λ status.
          store_event d (new_event d (digest d.raw_body) (digest d.signature)) status db
    ]

-- The latest events first, `limit` of them at most.
abbrev take : ℕ → List TelephonyEvent → List TelephonyEvent
take zero es = []
take (suc n) [] = []
take (suc n) (e ∷ es) = e ∷ take n es

unfoldable pub list_telephony_events : ContactDb → (tenant_id limit : ℕ) → List TelephonyEvent
list_telephony_events db tenant_id limit = take limit (
    order_by (λ (e f : TelephonyEvent). leb f.occurred_at e.occurred_at)
      (select (λ (e : TelephonyEvent). e.tenant_id == tenant_id) db.events))
