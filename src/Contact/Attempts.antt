-- ===== src/Contact/Attempts.antt =====
-- The operations of backend/app/contact_orchestration.py.
use luheng_fulfillops_cloud.Base.{
  ℕ, ◌+◌, ◌*◌, ◌/◌, ◌%◌, ◌&&◌, ◌||◌, Bool, true, false, not, Option, none, some, List, [], ◌∷◌,
  ◌++◌, ltb, leb, ◌==◌, first, update, count_by, is_some, Text, codes, Datetime, naive_utc, hour,
  day, Result, ok, ◌>>=◌, ◌>>◌, raise_if, or_raise,
}
use luheng_fulfillops_cloud.Cases.{CaseRecord, CaseStatus, settled, stop_contact}
use luheng_fulfillops_cloud.Repayment.Rows.{of_case}
use luheng_fulfillops_cloud.Contact.Rows.{
  queued, handoff, blocked, is_ended, is_blocked, is_failed, ContactAttempt, Environment,
  ContactCode, case_not_found, case_protected, contact_basis_missing, outside_contact_window,
  daily_frequency_exceeded, attempt_not_found, attempt_terminal, attempt_not_failed, ContactDb,
}
use luheng_fulfillops_cloud.Contact.Channels.{channel_gate, limits}

abbrev pub no_contact : CaseStatus → Bool
no_contact settled = true
no_contact stop_contact = true
no_contact _ = false

abbrev pub day_start : ℕ → ℕ
day_start t = t / day * day

-- An attempt of a case in the day that begins at `start` and that is not blocked.
abbrev pub counts_in : ℕ → Text → ℕ → ContactAttempt → Bool
counts_in tenant_id case_id start a =
    of_case tenant_id case_id a.tenant_id a.case_id
    && leb start a.scheduled_at
    && ltb a.scheduled_at (start + day)
    && not (is_blocked a.status)

pub record AttemptRequest : Type 0 where
  pub tenant_id : ℕ
  pub actor_id : ℕ
  pub case_id : Text
  pub activity_id : Option ℕ
  pub contact_reference : ℕ
  pub scheduled_at : Datetime
  pub channel : Text

unfoldable pub new_attempt : AttemptRequest → ℕ → ContactAttempt
new_attempt r id = record {
  id = id;
  tenant_id = r.tenant_id;
  case_id = r.case_id;
  activity_id = r.activity_id;
  channel = r.channel;
  contact_reference = r.contact_reference;
  status = queued;
  scheduled_at = naive_utc r.scheduled_at;
  requested_by = r.actor_id;
  handoff_reason = none;
  handoff_requested_by = none;
  handoff_requested_at = none;
  retry_of_id = none;
  cancelled_by = none;
  cancelled_at = none;
  cancel_reason = none;
  last_event_at = none;
}

abbrev pub lock_case : ℕ → Text → List CaseRecord → List CaseRecord
lock_case tenant_id case_id =
    update (λ (c : CaseRecord). of_case tenant_id case_id c.tenant_id c.case_id)
      (λ (c : CaseRecord). record c { version = c.version + 1 })

-- The row of the case is written first, which locks it; where what follows raises, that is undone.
unfoldable pub create_contact_attempt :
    Environment → AttemptRequest → ContactDb → Result ContactCode (ContactAttempt × ContactDb)
create_contact_attempt env r db = do
  let cases = lock_case r.tenant_id r.case_id db.cases
  case ←
      or_raise
        (first (λ (c : CaseRecord). of_case r.tenant_id r.case_id c.tenant_id c.case_id) cases)
        case_not_found
  raise_if (case.blocked || no_contact case.status) case_protected
  raise_if (not (is_some case.contact_basis_ref)) contact_basis_missing
  channel_gate env db r.tenant_id r.channel
  l ← limits env
  let scheduled = naive_utc r.scheduled_at
  let at_hour = scheduled % day / hour
  raise_if (not (leb l.start_hour at_hour && ltb at_hour l.end_hour)) outside_contact_window
  raise_if
      (leb l.daily (count_by (counts_in r.tenant_id r.case_id (day_start scheduled)) db.attempts))
      daily_frequency_exceeded
  let row = new_attempt r db.next_id
  ok (
    row,
    record db { cases = cases; attempts = db.attempts ++ row ∷ []; next_id = db.next_id + 1 },
  )

abbrev pub is_attempt : ℕ → ℕ → ContactAttempt → Bool
is_attempt tenant_id attempt_id a = a.tenant_id == tenant_id && a.id == attempt_id

abbrev pub write_attempt : ContactAttempt → List ContactAttempt → List ContactAttempt
write_attempt row = update (λ (a : ContactAttempt). a.id == row.id) (λ _. row)

unfoldable pub request_handoff :
    (tenant_id actor_id attempt_id : ℕ)
    → Text
    → ℕ
    → ContactDb
    → Result ContactCode (ContactAttempt × ContactDb)
request_handoff tenant_id actor_id attempt_id reason now db = do
  a ← or_raise (first (is_attempt tenant_id attempt_id) db.attempts) attempt_not_found
  raise_if (is_ended a.status) attempt_terminal
  let row : ContactAttempt = record a {
    status = handoff;
    handoff_reason = some reason;
    handoff_requested_by = some actor_id;
    handoff_requested_at = some now;
  }
  ok (row, record db { attempts = write_attempt row db.attempts })

unfoldable pub cancel_contact_attempt :
    (tenant_id actor_id attempt_id : ℕ)
    → Text
    → ℕ
    → ContactDb
    → Result ContactCode (ContactAttempt × ContactDb)
cancel_contact_attempt tenant_id actor_id attempt_id reason now db = do
  a ← or_raise (first (is_attempt tenant_id attempt_id) db.attempts) attempt_not_found
  raise_if (is_ended a.status) attempt_terminal
  let row : ContactAttempt = record a {
    status = blocked;
    cancel_reason = some reason;
    cancelled_by = some actor_id;
    cancelled_at = some now;
  }
  ok (row, record db { attempts = write_attempt row db.attempts })

unfoldable pub retry_contact_attempt :
    Environment
    → (tenant_id actor_id attempt_id : ℕ) → Datetime
    → Text
    → ContactDb
    → Result ContactCode (ContactAttempt × ContactDb)
retry_contact_attempt env tenant_id actor_id attempt_id scheduled_at reason db = do
  previous ← or_raise (first (is_attempt tenant_id attempt_id) db.attempts) attempt_not_found
  raise_if (not (is_failed previous.status)) attempt_not_failed
  (a, db') ←
      create_contact_attempt env
        (record {
          tenant_id = tenant_id;
          actor_id = actor_id;
          case_id = previous.case_id;
          activity_id = previous.activity_id;
          contact_reference = previous.contact_reference;
          scheduled_at = scheduled_at;
          channel = previous.channel;
        })
        db
  let row : ContactAttempt = record a {
    retry_of_id = some previous.id;
    handoff_reason = some (codes "retry_reason:" ++ reason);
  }
  ok (row, record db' { attempts = write_attempt row db'.attempts })
