-- ===== src/Contact/Runs.antt =====
-- Sequences of requests and of events of calls, and the daily limit along them.
use luheng_fulfillops_cloud.Base.{
  ℕ, ◌≡◌, List, [], ◌∷◌, Option, Text, Datetime, Bool, Result, ok, err, Returned,
}
use luheng_fulfillops_cloud.Contact.Rows.{
  ContactAttempt, ContactDb, ContactCode, Environment, TelephonyEvent, TelephonyCode,
}
use luheng_fulfillops_cloud.Contact.Attempts.{
  AttemptRequest, create_contact_attempt, request_handoff, cancel_contact_attempt,
  retry_contact_attempt,
}
use luheng_fulfillops_cloud.Contact.Channels.{Limits, limits}
use luheng_fulfillops_cloud.Contact.Telephony.{TelephonyDelivery, accept_telephony_webhook}
use luheng_fulfillops_cloud.Contact.Limits.{HasLimits, Kept}
use luheng_fulfillops_cloud.Contact.Daily.{
  Stored, create_contact_attempt-HasLimits, request_handoff-HasLimits,
  cancel_contact_attempt-HasLimits, retry_contact_attempt-HasLimits,
  accept_telephony_webhook-HasLimits,
}

pub data ContactOperation : Type 0 where
  create_attempt : AttemptRequest → ContactOperation
  hand_off : (tenant_id actor_id attempt_id : ℕ) → Text → (now : ℕ) → ContactOperation
  cancel : (tenant_id actor_id attempt_id : ℕ) → Text → (now : ℕ) → ContactOperation
  retry : (tenant_id actor_id attempt_id : ℕ) → Datetime → Text → ContactOperation
  call_event : TelephonyDelivery → (now_seconds : ℕ) → ContactOperation

-- A request that raises changes nothing: its transaction is rolled back.
abbrev pub after_request : ContactDb → Result ContactCode (ContactAttempt × ContactDb) → ContactDb
after_request db (ok w) = w.1
after_request db (err _) = db

abbrev pub after_event :
    ContactDb → Result TelephonyCode (TelephonyEvent × Bool × ContactDb) → ContactDb
after_event db (ok w) = w.2
after_event db (err _) = db

after_request-HasLimits :
    (n : ℕ) (db : ContactDb) (m : Result ContactCode (ContactAttempt × ContactDb))
    → HasLimits n db
    → Returned (Kept n) m
    → HasLimits n (after_request db m)
after_request-HasLimits n db (ok w) h r = r
after_request-HasLimits n db (err _) h r = h

after_create-HasLimits :
    (n : ℕ) (db : ContactDb) (m : Result ContactCode (ContactAttempt × ContactDb))
    → HasLimits n db
    → Returned (Stored n) m
    → HasLimits n (after_request db m)
after_create-HasLimits n db (ok w) h r = r.0
after_create-HasLimits n db (err _) h r = h

after_event-HasLimits :
    (n : ℕ) (db : ContactDb) (m : Result TelephonyCode (TelephonyEvent × Bool × ContactDb))
    → HasLimits n db
    → Returned (λ w. HasLimits n w.2) m
    → HasLimits n (after_event db m)
after_event-HasLimits n db (ok w) h r = r
after_event-HasLimits n db (err _) h r = h

module _ (env : Environment) (resolve_secret : (secret_ref tenant_id : ℕ) → Option Text)
    (sign : Text → Text → Text → Text) (digest : Text → ℕ) where
  abbrev pub carry_out_contact : ContactOperation → ContactDb → ContactDb
  carry_out_contact (create_attempt r) db = after_request db (create_contact_attempt env r db)
  carry_out_contact (hand_off t a i s now) db = after_request db (request_handoff t a i s now db)
  carry_out_contact (cancel t a i s now) db =
      after_request db (cancel_contact_attempt t a i s now db)
  carry_out_contact (retry t a i w s) db = after_request db (retry_contact_attempt env t a i w s db)
  carry_out_contact (call_event d now) db =
      after_event db (accept_telephony_webhook resolve_secret sign digest d now db)

  abbrev pub run_contacts : List ContactOperation → ContactDb → ContactDb
  run_contacts [] db = db
  run_contacts (o ∷ os) db = run_contacts os (carry_out_contact o db)

  carry_out_contact-HasLimits :
      (l : Limits)
      → limits env ≡ ok l
      → (o : ContactOperation) (db : ContactDb) → HasLimits l.daily db
      → HasLimits l.daily (carry_out_contact o db)
  carry_out_contact-HasLimits l known (create_attempt r) db h =
      after_create-HasLimits l.daily db _ h (create_contact_attempt-HasLimits env l known r db h)
  carry_out_contact-HasLimits l known (hand_off t a i s now) db h =
      after_request-HasLimits l.daily db _ h (request_handoff-HasLimits l.daily t a i s now db h)
  carry_out_contact-HasLimits l known (cancel t a i s now) db h =
      after_request-HasLimits l.daily db _ h
        (cancel_contact_attempt-HasLimits l.daily t a i s now db h)
  carry_out_contact-HasLimits l known (retry t a i w s) db h =
      after_request-HasLimits l.daily db _ h
        (retry_contact_attempt-HasLimits env l known t a i w s db h)
  carry_out_contact-HasLimits l known (call_event d now) db h =
      after_event-HasLimits l.daily db _ h
        (accept_telephony_webhook-HasLimits resolve_secret sign digest l.daily d now db h)

  -- Where the environment's limits are valid, the keys of the attempts differ and each case has no more attempts that are
  -- not blocked in a day than the limit, that stays so through any sequence of requests to create, hand over, cancel and retry
  -- attempts and of events of calls.
  pub run_contacts-HasLimits :
      (l : Limits)
      → limits env ≡ ok l
      → (os : List ContactOperation) (db : ContactDb) → HasLimits l.daily db
      → HasLimits l.daily (run_contacts os db)
  run_contacts-HasLimits l known [] db h = h
  run_contacts-HasLimits l known (o ∷ os) db h =
      run_contacts-HasLimits l known os _ (carry_out_contact-HasLimits l known o db h)
