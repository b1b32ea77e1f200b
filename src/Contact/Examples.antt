-- ===== src/Contact/Examples.antt =====
-- A case that is called, answers, and is called once more: runs, and the theorems at them.
use luheng_fulfillops_cloud.Base.{
  ℕ, ◌+◌, ◌*◌, ◌≡◌, refl, true, false, none, some, Option, List, [], ◌∷◌, arith, Text, codes,
  text_eq, naive, hour, day, ok, Returned, length, lower, map,
}
use luheng_fulfillops_cloud.Base.Int.{pos, ◌-ℤ◌}
use luheng_fulfillops_cloud.Cases.{awaiting_contact}
use luheng_fulfillops_cloud.Services.{phone}
use luheng_fulfillops_cloud.Contact.Rows.{
  AttemptStatus, ContactAttempt, ContactDb, Environment, event_answered,
}
use luheng_fulfillops_cloud.Contact.Attempts.{AttemptRequest, create_contact_attempt, new_attempt}
use luheng_fulfillops_cloud.Contact.Channels.{
  Limits, limits, channel_gate, phone_config, integration_state,
}
use luheng_fulfillops_cloud.Contact.Telephony.{
  TelephonyDelivery, accept_telephony_webhook, store_event, new_event,
}
use luheng_fulfillops_cloud.Contact.Progress.{
  AllPairs, MovesForward, accept_telephony_webhook-MovesForward,
}
use luheng_fulfillops_cloud.Contact.Limits.{HasLimits}
use luheng_fulfillops_cloud.Contact.Runs.{
  ContactOperation, create_attempt, call_event, run_contacts, run_contacts-HasLimits,
}

abbrev environment : Environment
environment = record {
  max_attempts_per_case_day = some (pos 1);
  window_start_utc_hour = some (pos 1);
  window_end_utc_hour = some (pos 13);
  sandbox_channels = codes "sms,email";
}

abbrev once_a_day : Limits
once_a_day = record { daily = 1; start_hour = 1; end_hour = 13 }

limits_known : limits environment ≡ ok once_a_day
unfolding limits
limits_known = refl

abbrev tables : ContactDb
tables = record {
  cases =
      record {
        tenant_id = 1;
        case_id = codes "C1";
        package_id = 7;
        status = awaiting_contact;
        blocked = false;
        has_signed_plan = false;
        contact_basis_ref = some 4;
        version = 1;
      }
      ∷ [];
  attempts = [];
  events = [];
  configs =
      record {
        tenant_id = 1;
        service_type = phone;
        provider = 8;
        settings = [];
        secret_ref = some 2;
        version = 1;
        saved = true;
        connected = true;
      }
      ∷ [];
  states =
      record {
        tenant_id = 1;
        enabled = true;
        last_self_test_id = none;
        enabled_at = none;
        enabled_by = none;
        enabled_service_versions = none;
      }
      ∷ [];
  next_id = 3;
}

abbrev request : AttemptRequest
request = record {
  tenant_id = 1;
  actor_id = 5;
  case_id = codes "C1";
  activity_id = none;
  contact_reference = 9;
  scheduled_at = naive (20 * day + 9 * hour);
  channel = codes "phone";
}

abbrev secret_of : (secret_ref tenant_id : ℕ) → Option Text
secret_of r t = some (r ∷ [])

abbrev signed : Text → Text → Text → Text
signed secret timestamp body = secret

abbrev body_hash : Text → ℕ
body_hash t = length t

abbrev answered_call : TelephonyDelivery
answered_call = record {
  tenant_id = 1;
  provider = 8;
  payload = record {
    event_id = 70;
    call_reference = 3;
    event_type = event_answered;
    occurred_at = 20 * day + 9 * hour + 5;
    case_id = some (codes "C1");
    activity_id = none;
    failure_code = none;
  };
  raw_body = codes "{}";
  timestamp = codes "100";
  issued_at = some (pos 100);
  signature = 2 ∷ [];
}

abbrev calls : List ContactOperation
calls = create_attempt request ∷ call_event answered_call 200 ∷ create_attempt request ∷ []

tables-HasLimits : HasLimits 1 tables
tables-HasLimits = (λ _ _ _. omega arith, (λ _. omega arith, tt))

run_contacts-HasLimits_example :
    HasLimits 1 (run_contacts environment secret_of signed body_hash calls tables)
run_contacts-HasLimits_example =
    run_contacts-HasLimits environment secret_of signed body_hash once_a_day limits_known calls
      tables tables-HasLimits

-- The call is answered, and the second attempt of the day is refused.
answered_once :
    map
      (λ (a : ContactAttempt). a.status)
      (run_contacts environment secret_of signed body_hash calls tables).attempts
    ≡ AttemptStatus.answered ∷ []
unfolding limits create_contact_attempt channel_gate phone_config integration_state new_attempt
    text_eq accept_telephony_webhook store_event new_event lower ◌-ℤ◌
answered_once = refl

accept_telephony_webhook-MovesForward_example :
    Returned
      (λ w.
        AllPairs
          (MovesForward answered_call.payload.occurred_at)
          (run_contacts environment secret_of signed body_hash calls tables).attempts
          w.2.attempts)
      (accept_telephony_webhook secret_of signed body_hash answered_call 300
        (run_contacts environment secret_of signed body_hash calls tables))
accept_telephony_webhook-MovesForward_example =
    accept_telephony_webhook-MovesForward secret_of signed body_hash answered_call 300
      (run_contacts environment secret_of signed body_hash calls tables)
