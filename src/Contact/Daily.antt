-- ===== src/Contact/Daily.antt =====
-- The operations of backend/app/contact_orchestration.py and backend/app/telephony.py keep the daily limit.
use luheng_fulfillops_cloud.Base.{
  ℕ, ◌*◌, ◌/◌, ◌%◌, ◌<◌, ◌≡◌, refl, subst, false, not, Option, some, List, arith, first, is_some,
  leb, ltb, All-update, All-of_each, count_by, count_by-update, count_by-update-le, Text, Datetime,
  naive_utc, hour, day, ok, Returned, Returned->>=, Returned-ok, Returned-raise_if,
  Returned-or_raise, ◌==◌, ◌&&◌, ◌||◌, ok-eq,
}
use luheng_fulfillops_cloud.Cases.{CaseRecord}
use luheng_fulfillops_cloud.Repayment.Rows.{of_case}
use luheng_fulfillops_cloud.Contact.Rows.{
  AttemptStatus, ContactAttempt, Environment, ContactDb, is_ended, is_failed, case_not_found,
  case_protected, contact_basis_missing, outside_contact_window, daily_frequency_exceeded,
  attempt_not_found, attempt_terminal, attempt_not_failed,
}
use luheng_fulfillops_cloud.Contact.Attempts.{
  no_contact, day_start, counts_in, AttemptRequest, new_attempt, lock_case, create_contact_attempt,
  is_attempt, request_handoff, cancel_contact_attempt, retry_contact_attempt,
}
use luheng_fulfillops_cloud.Contact.Channels.{Limits, limits, channel_gate}
use luheng_fulfillops_cloud.Contact.Telephony.{
  TelephonyDelivery, advances, advance_attempt, accept_telephony_webhook,
}
use luheng_fulfillops_cloud.Contact.Progress.{accept_telephony_webhook-attempts}
use luheng_fulfillops_cloud.Contact.Limits.{
  HasLimits, WithinDaily, IsKeyed, Alone, Kept, write_attempt-HasLimits, found-Alone, added-Alone,
  add-IsKeyed, add-WithinDaily,
}

-- The attempt is stored, under a key of its own, and the limits are kept.
abbrev pub Stored : ℕ → ContactAttempt × ContactDb → Type 0
Stored n w = HasLimits n w.1 × Alone w.0 w.1.attempts

pub create_contact_attempt-HasLimits :
    (env : Environment) (l : Limits)
    → limits env ≡ ok l
    → (r : AttemptRequest) (db : ContactDb) → HasLimits l.daily db
    → Returned (Stored l.daily) (create_contact_attempt env r db)
unfolding create_contact_attempt new_attempt
create_contact_attempt-HasLimits env l known r db h =
    Returned-or_raise (Stored l.daily)
      (first (λ (c : CaseRecord). of_case r.tenant_id r.case_id c.tenant_id c.case_id)
        (lock_case r.tenant_id r.case_id db.cases))
      case_not_found _
      (λ (c : CaseRecord) _.
        Returned-raise_if (Stored l.daily) (c.blocked || no_contact c.status) case_protected _ (λ _.
          Returned-raise_if (Stored l.daily) (not (is_some c.contact_basis_ref))
            contact_basis_missing _
            (λ _.
              Returned->>= (Stored l.daily) (channel_gate env db r.tenant_id r.channel) _ (λ _ _.
                Returned->>= (Stored l.daily) (limits env) _ (λ m got.
                  let scheduled = naive_utc r.scheduled_at in
                  let at_hour = scheduled % day / hour in
                  Returned-raise_if (Stored l.daily)
                    (not (leb m.start_hour at_hour && ltb at_hour m.end_hour))
                    outside_contact_window _
                    (λ _.
                      Returned-raise_if (Stored l.daily)
                        (leb m.daily (
                          count_by (counts_in r.tenant_id r.case_id (day_start scheduled))
                            db.attempts))
                        daily_frequency_exceeded _
                        (λ free. (
                          (
                            add-WithinDaily l.daily r db.next_id db.attempts
                                (subst
                                  (λ (k : Limits).
                                    leb k.daily (
                                      count_by
                                        (counts_in r.tenant_id r.case_id (day_start scheduled))
                                        db.attempts)
                                    ≡ false)
                                  (ok-eq got known) free)
                                h.0,
                            add-IsKeyed db.next_id (new_attempt r db.next_id) db.attempts refl h.1,
                          ),
                          added-Alone db.next_id (new_attempt r db.next_id) db.attempts refl h.1,
                        ))))))))

pub request_handoff-HasLimits :
    (n tenant_id actor_id attempt_id : ℕ) (reason : Text) (now : ℕ) (db : ContactDb)
    → HasLimits n db
    → Returned (Kept n) (request_handoff tenant_id actor_id attempt_id reason now db)
unfolding request_handoff
request_handoff-HasLimits n tenant_id actor_id attempt_id reason now db h =
    Returned-or_raise (Kept n) (first (is_attempt tenant_id attempt_id) db.attempts)
      attempt_not_found _
      (λ a found. Returned-raise_if (Kept n) (is_ended a.status) attempt_terminal _ (λ running.
        write_attempt-HasLimits n db.next_id a _ db.attempts
          (found-Alone tenant_id attempt_id db.next_id db.attempts h.1 found) refl
          (λ u c s counts. ground (arith, counts, running)) h))

pub cancel_contact_attempt-HasLimits :
    (n tenant_id actor_id attempt_id : ℕ) (reason : Text) (now : ℕ) (db : ContactDb)
    → HasLimits n db
    → Returned (Kept n) (cancel_contact_attempt tenant_id actor_id attempt_id reason now db)
unfolding cancel_contact_attempt
cancel_contact_attempt-HasLimits n tenant_id actor_id attempt_id reason now db h =
    Returned-or_raise (Kept n) (first (is_attempt tenant_id attempt_id) db.attempts)
      attempt_not_found _
      (λ a found. Returned-raise_if (Kept n) (is_ended a.status) attempt_terminal _ (λ running.
        write_attempt-HasLimits n db.next_id a _ db.attempts
          (found-Alone tenant_id attempt_id db.next_id db.attempts h.1 found) refl
          (λ u c s counts. absurd (ground (arith, counts))) h))

pub retry_contact_attempt-HasLimits :
    (env : Environment) (l : Limits)
    → limits env ≡ ok l
    → (tenant_id actor_id attempt_id : ℕ) (scheduled_at : Datetime) (reason : Text) (db : ContactDb)
    → HasLimits l.daily db
    → Returned
        (Kept l.daily)
        (retry_contact_attempt env tenant_id actor_id attempt_id scheduled_at reason db)
unfolding retry_contact_attempt
retry_contact_attempt-HasLimits env l known tenant_id actor_id attempt_id scheduled_at reason db h =
    Returned-or_raise (Kept l.daily) (first (is_attempt tenant_id attempt_id) db.attempts)
      attempt_not_found _
      (λ (previous : ContactAttempt) _.
        Returned-raise_if (Kept l.daily) (not (is_failed previous.status)) attempt_not_failed _
          (λ _.
            let r : AttemptRequest = record {
              tenant_id = tenant_id;
              actor_id = actor_id;
              case_id = previous.case_id;
              activity_id = previous.activity_id;
              contact_reference = previous.contact_reference;
              scheduled_at = scheduled_at;
              channel = previous.channel;
            } in
            Returned->>= (Kept l.daily) (create_contact_attempt env r db) _ (λ w done.
              let stored =
                Returned-ok (Stored l.daily) _ (create_contact_attempt-HasLimits env l known r db h)
                  done in
              write_attempt-HasLimits l.daily w.1.next_id w.0 _ w.1.attempts stored.1 refl
                (λ u c s counts. counts) stored.0)))

-- An event of a call moves no attempt out of the blocked ones.
advance_attempt-HasLimits :
    (n next : ℕ) (tenant_id : ℕ) (attempt : ContactAttempt) (status : AttemptStatus)
    (occurred_at : ℕ) (rows : List ContactAttempt)
    → WithinDaily n rows × IsKeyed next rows
    → WithinDaily n (advance_attempt tenant_id attempt status occurred_at rows)
      × IsKeyed next (advance_attempt tenant_id attempt status occurred_at rows)
advance_attempt-HasLimits n next tenant_id attempt status occurred_at rows h = (
  λ u c d. omega (
    arith,
    h.0 u c d,
    count_by-update-le (counts_in u c (d * day)) (advances tenant_id attempt status occurred_at)
        (λ (a : ContactAttempt). record a { status = status; last_event_at = some occurred_at })
        rows (All-of_each _ rows (λ x hit counts. ground (arith, hit, counts))),
  ),
  (
    λ k.
        rw
          (count_by-update (λ (x : ContactAttempt). x.id == k)
            (advances tenant_id attempt status occurred_at)
            (λ (a : ContactAttempt). record a { status = status; last_event_at = some occurred_at })
            rows (λ _ _. refl))
          (h.1.0 k),
    All-update (λ (x : ContactAttempt). x.id < next) (advances tenant_id attempt status occurred_at)
        (λ (a : ContactAttempt). record a { status = status; last_event_at = some occurred_at })
        rows (λ _ _ less. less) h.1.1,
  ),
)

module _ (resolve_secret : (secret_ref tenant_id : ℕ) → Option Text)
    (sign : Text → Text → Text → Text) (digest : Text → ℕ) where
  pub accept_telephony_webhook-HasLimits :
      (n : ℕ) (d : TelephonyDelivery) (now_seconds : ℕ) (db : ContactDb)
      → HasLimits n db
      → Returned
          (λ w. HasLimits n w.2)
          (accept_telephony_webhook resolve_secret sign digest d now_seconds db)
  accept_telephony_webhook-HasLimits n d now_seconds db h =
      accept_telephony_webhook-attempts (λ rows next. WithinDaily n rows × IsKeyed next rows) d db h
        (λ attempt status.
          advance_attempt-HasLimits n db.next_id d.tenant_id attempt status d.payload.occurred_at
            db.attempts h)
        resolve_secret sign digest now_seconds
