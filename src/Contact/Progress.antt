-- ===== src/Contact/Progress.antt =====
-- What an event of a call does to attempts: a status moves forward only, and an ended attempt stays.
use luheng_fulfillops_cloud.Base.{
  ℕ, ◌≤◌, ◌≡◌, refl, inl, inr, ◌⊎◌, Bool, true, false, not, Option, none, some, List, [], ◌∷◌,
  arith, first, update, ltb, ◌>>=◌, or_raise, Text, text_eq, lower, Returned, Returned-raise_if,
  Returned-or_raise, Option-cases, ◌==◌, if◌then◌else◌,
}
use luheng_fulfillops_cloud.Base.Int.{pos, abs, ◌-ℤ◌}
use luheng_fulfillops_cloud.Contact.Rows.{
  AttemptStatus, ContactAttempt, ContactDb, TelephonyEvent, is_ended, invalid_timestamp,
  stale_webhook, provider_not_ready, secret_unavailable, invalid_signature, idempotency_conflict,
  event_type_denied, attempt_scope_mismatch,
}
use luheng_fulfillops_cloud.Contact.Attempts.{is_attempt}
use luheng_fulfillops_cloud.Contact.Channels.{phone_config}
use luheng_fulfillops_cloud.Contact.Telephony.{
  not_later, TelephonyDelivery, from_provider, status_of_event, rank, rank_le, advances,
  advance_attempt, is_call_event, in_scope, new_event, store_event, repeat_event,
  accept_telephony_webhook,
}

-- What holds of the attempts, and of the attempts that an event has advanced, holds of what a delivery leaves.
module _ {ℓ} (Q : List ContactAttempt → ℕ → Type ℓ) (d : TelephonyDelivery) (db : ContactDb)
    (stay : Q db.attempts db.next_id)
    (move : (attempt : ContactAttempt) (status : AttemptStatus)
      → Q
          (advance_attempt d.tenant_id attempt status d.payload.occurred_at db.attempts)
          db.next_id) where
  store_event-attempts :
      (event : TelephonyEvent) (status : AttemptStatus)
      → Returned (λ w. Q w.2.attempts w.2.next_id) (store_event d event status db)
  unfolding store_event
  store_event-attempts event status =
      elim (Option-cases (first (is_attempt d.tenant_id d.payload.call_reference) db.attempts)) [
        | inl e ↦ rw (e, store_event) stay
        | inr (a, e) ↦
            rw (e, store_event)
              (Returned-raise_if (λ w. Q w.2.attempts w.2.next_id) (not (in_scope d.payload a))
                attempt_scope_mismatch _ (λ _. move a status))
      ]

  repeat_event-attempts :
      (existing : TelephonyEvent) (payload_digest : ℕ)
      → Returned (λ w. Q w.2.attempts w.2.next_id) (repeat_event existing payload_digest db)
  unfolding repeat_event
  repeat_event-attempts existing payload_digest =
      Returned-raise_if (λ w. Q w.2.attempts w.2.next_id)
        (not (existing.payload_digest == payload_digest)) idempotency_conflict _ (λ _. stay)

  module _ (resolve_secret : (secret_ref tenant_id : ℕ) → Option Text)
      (sign : Text → Text → Text → Text) (digest : Text → ℕ) where
    pub accept_telephony_webhook-attempts :
        (now_seconds : ℕ)
        → Returned
            (λ w. Q w.2.attempts w.2.next_id)
            (accept_telephony_webhook resolve_secret sign digest d now_seconds db)
    unfolding accept_telephony_webhook
    accept_telephony_webhook-attempts now_seconds =
        let Held = λ (w : TelephonyEvent × Bool × ContactDb). Q w.2.attempts w.2.next_id in
        Returned-or_raise Held d.issued_at invalid_timestamp _ (λ issued_at _.
          Returned-raise_if Held (ltb 300 (abs (pos now_seconds -ℤ issued_at))) stale_webhook _
            (λ _.
              Returned-or_raise Held (from_provider d.provider (phone_config db d.tenant_id))
                provider_not_ready _
                (λ secret_ref _.
                  Returned-or_raise Held (resolve_secret secret_ref d.tenant_id) secret_unavailable
                    _
                    (λ secret _.
                      Returned-raise_if Held
                        (not (text_eq (sign secret d.timestamp d.raw_body) (lower d.signature)))
                        invalid_signature _
                        (λ _.
                          elim (first (is_call_event d.tenant_id d.provider d.payload.event_id)
                              db.events)
                            as (λ o. Returned Held (elim o [
                              | some existing ↦ repeat_event existing (digest d.raw_body) db
                              | none ↦
                                  or_raise (status_of_event d.payload.event_type) event_type_denied
                                  >>= λ status.
                                      store_event d
                                        (new_event d (digest d.raw_body) (digest d.signature))
                                        status db
                            ])) [
                              | some existing ↦ repeat_event-attempts existing (digest d.raw_body)
                              | none ↦
                                  Returned-or_raise Held (status_of_event d.payload.event_type)
                                    event_type_denied _
                                    (λ status _.
                                      store_event-attempts
                                        (new_event d (digest d.raw_body) (digest d.signature))
                                        status)
                            ])))))

module _ {ℓ} {A : Type ℓ} where
  -- What holds of each row and of what became of it.
  abbrev pub AllPairs : (A → A → Type 0) → List A → List A → Type 0
  AllPairs R [] [] = Unit
  AllPairs R (x ∷ xs) (y ∷ ys) = R x y × AllPairs R xs ys
  AllPairs R _ _ = ⊥

module _ {ℓ} {A : Type ℓ} where
  pairs_unchanged : (R : A → A → Type 0) → ((x : A) → R x x) → (xs : List A) → AllPairs R xs xs
  pairs_unchanged R r [] = tt
  pairs_unchanged R r (x ∷ xs) = (r x, pairs_unchanged R r xs)

  AllPairs-update :
      (R : A → A → Type 0) (p : A → Bool) (f : A → A)
      → ((x : A) → R x x)
      → ((x : A) → p x ≡ true → R x (f x))
      → (xs : List A) → AllPairs R xs (update p f xs)
  AllPairs-update R p f r s [] = tt
  AllPairs-update R p f r s (x ∷ xs) = (
    (elim (p x) as (λ b. (b ≡ true → R x (f x)) → R x (if b then f x else x)) [
      | true ↦ λ g. g refl
      | false ↦ λ g. r x
    ])
        (s x),
    AllPairs-update R p f r s xs,
  )

-- An attempt is as it was, or had not ended and moved to a status of no lower rank by an event no
-- earlier than the last one.
-- The event of that time is not older than the last one.
abbrev pub NotOlder : Option ℕ → ℕ → Type 0
NotOlder none occurred_at = Unit
NotOlder (some last) occurred_at = last ≤ occurred_at

abbrev pub MovesForward : ℕ → ContactAttempt → ContactAttempt → Type 0
MovesForward occurred_at a b =
    (b ≡ a)
    ⊎ ((is_ended a.status ≡ false)
        × (rank_le (rank a.status) (rank b.status) ≡ true)
        × NotOlder a.last_event_at occurred_at
        × (b.last_event_at ≡ some occurred_at)
        × (b.id ≡ a.id))

not_later_lem : (last : Option ℕ) (t : ℕ) → not_later last t ≡ true → NotOlder last t
not_later_lem none t h = tt
not_later_lem (some s) t h = ground (arith, h)

-- A delivery of an event of a call that is accepted leaves each attempt as it was, or moves it forward, where the
-- event is not older than the last one of the attempt: an ended attempt and one that was handed to a person stay,
-- the rank of the status does not fall, and the time of the event becomes that of the last one.
pub accept_telephony_webhook-MovesForward :
    (resolve_secret : (secret_ref tenant_id : ℕ) → Option Text) (sign : Text → Text → Text → Text)
    (digest : Text → ℕ) (d : TelephonyDelivery) (now_seconds : ℕ) (db : ContactDb)
    → Returned
        (λ w. AllPairs (MovesForward d.payload.occurred_at) db.attempts w.2.attempts)
        (accept_telephony_webhook resolve_secret sign digest d now_seconds db)
accept_telephony_webhook-MovesForward resolve_secret sign digest d now_seconds db =
    let Forward = MovesForward d.payload.occurred_at in
    accept_telephony_webhook-attempts (λ rows _. AllPairs Forward db.attempts rows) d db
      (pairs_unchanged Forward (λ _. inl refl) db.attempts)
      (λ attempt status.
        AllPairs-update Forward (advances d.tenant_id attempt status d.payload.occurred_at) _
          (λ _. inl refl)
          (λ a hit. inr (
            ground (arith, hit),
            ground (arith, hit),
            not_later_lem a.last_event_at d.payload.occurred_at (ground (arith, hit)),
            refl,
            refl,
          ))
          db.attempts)
      resolve_secret sign digest now_seconds
