-- ===== src/Dialogue/Turns.antt =====
-- How long a dialogue lasts, and which turns record a promise.
use luheng_fulfillops_cloud.Base.{
  ℕ, suc, ◌+◌, ◌≤◌, ◌<◌, ◌≡◌, refl, sym, ap, ◌∙◌, subst, ◌⊎◌, inl, inr, Bool, true, false, Option,
  none, some, arith, ok, Option-cases,
}
use luheng_fulfillops_cloud.Base.Int.{ℤ}
use luheng_fulfillops_cloud.Dialogue.{
  Stage, Proposal, DueDate, Dialogue, Output, Event, promise_event, is_terminal,
  awaits_confirmation, start, check, verify_fixture, cleared, clarify, valid_amount, valid_due,
  read_back, take_due, take_amount, confirm, offer, business, doubt, take_turn, advance,
}
use luheng_fulfillops_cloud.Dialogue.Promises.{IsSound, AmountOk, DueOk, Whole, take_turn-IsSound}

abbrev is_promise : Option Event → Bool
is_promise none = false
is_promise (some (promise_event _ _)) = true
is_promise (some _) = false

-- A part of a turn that records no promise and does not count as a turn of its own.
record IsQuiet (s : Dialogue) (w : Dialogue × Output) : Type 0 where
  same_turns : w.0.turns ≡ s.turns
  no_promise : is_promise w.1.event ≡ false

clarify-IsQuiet : (s : Dialogue) → IsQuiet s (clarify s)
unfolding clarify cleared
clarify-IsQuiet s = ground arith

read_back-IsQuiet : (s : Dialogue) → IsQuiet s (read_back s)
unfolding read_back
read_back-IsQuiet s = ground arith

take_due-IsQuiet : (today : ℕ) (d : Option DueDate) (s : Dialogue) → IsQuiet s (take_due today d s)
unfolding take_due
take_due-IsQuiet today none s = read_back-IsQuiet s
take_due-IsQuiet today (some d) s =
    let back = read_back-IsQuiet (record s { due = valid_due today d }) in
    let again = clarify-IsQuiet (record s { due = none }) in
    ground (arith, back.same_turns, back.no_promise, again.same_turns, again.no_promise)

take_amount-IsQuiet :
    (today : ℕ) (a : Option ℤ) (d : Option DueDate) (s : Dialogue)
    → IsQuiet s (take_amount today a d s)
unfolding take_amount
take_amount-IsQuiet today none d s = take_due-IsQuiet today d s
take_amount-IsQuiet today (some a) d s =
    let taken = take_due-IsQuiet today d (record s { amount = valid_amount a }) in
    let again = clarify-IsQuiet (record s { amount = none }) in
    ground (arith, taken.same_turns, taken.no_promise, again.same_turns, again.no_promise)

offer-IsQuiet : (today : ℕ) (p : Proposal) (s : Dialogue) → IsQuiet s (offer today p s)
unfolding offer
offer-IsQuiet today p s =
    let q =
      take_amount-IsQuiet today p.amount_cents p.due_date
        (record s { stage = Stage.collecting_promise }) in
    record { same_turns = q.same_turns; no_promise = q.no_promise }

-- A turn counts once, and one that records a promise confirms the one that waited.
record IsTurn (s : Dialogue) (w : Dialogue × Output) : Type 0 where
  same_turns : w.0.turns ≡ s.turns
  confirmed :
      is_promise w.1.event ≡ true
      → (awaits_confirmation s.stage ≡ true) × (w.1.event ≡ some (promise_event s.amount s.due))

confirm-IsTurn : (s : Dialogue) → IsTurn s (confirm s)
unfolding confirm
confirm-IsTurn s = let q = clarify-IsQuiet s in ground (arith, q.same_turns, q.no_promise)

business-IsTurn : (today : ℕ) (p : Proposal) (s : Dialogue) → IsTurn s (business today p s)
unfolding business cleared
business-IsTurn today p s =
    let q = clarify-IsQuiet s in
    let o = offer-IsQuiet today p s in
    let c = confirm-IsTurn s in
    ground
      (arith, q.same_turns, q.no_promise, o.same_turns, o.no_promise, c.same_turns, c.confirmed)

take_turn-IsTurn :
    (today : ℕ) (p : Proposal) (current : Bool) (s : Dialogue)
    → IsTurn s (take_turn today p current s)
unfolding take_turn cleared doubt
take_turn-IsTurn today p current s =
    let q = clarify-IsQuiet (doubt s) in
    let b = business-IsTurn today p s in
    ground (arith, q.same_turns, q.no_promise, b.same_turns, b.confirmed)

take_turn-last :
    (today : ℕ) (p : Proposal) (current : Bool) (s : Dialogue)
    → 12 < s.turns
    → is_terminal (take_turn today p current s).0.stage ≡ true
unfolding take_turn cleared
take_turn-last today p current s h = ground arith

-- A dialogue from its start: the number of turns, and where it stands.
pub data Run (today : ℕ) : ℕ → Dialogue → Type 0 where
  begun : Run today 0 start
  proved :
      {n : ℕ} {s s' : Dialogue} {o : Output} (version : ℕ)
      → Run today n s
      → verify_fixture s version ≡ ok (s', o)
      → Run today n s'
  turned :
      {n : ℕ} {s s' : Dialogue} {o : Output} (p : Proposal) (version : ℕ) (current : Bool)
      → Run today n s
      → advance today p version current s ≡ ok (s', o)
      → Run today (suc n) s'

-- What an operation that returns has passed and leaves.
verify_fixture-eq :
    (s : Dialogue) (version : ℕ) {s' : Dialogue} {o : Output}
    → verify_fixture s version ≡ ok (s', o)
    → (is_terminal s.stage ≡ false)
      × (s' ≡ record s { verified = true; stage = Stage.debt_explained; version = s.version + 1 })
unfolding verify_fixture check
verify_fixture-eq s version h = ground arith

counted : Dialogue → Dialogue
counted s = record s { version = s.version + 1; turns = s.turns + 1 }

advance-eq :
    (today : ℕ) (p : Proposal) (version : ℕ) (current : Bool) (s : Dialogue) {w : Dialogue × Output}
    → advance today p version current s ≡ ok w
    → (is_terminal s.stage ≡ false) × (w ≡ take_turn today p current (counted s))
unfolding advance check counted
advance-eq today p version current s h = ground arith

-- The turns are counted, and the thirteenth ends the dialogue.
record IsCounted (n : ℕ) (s : Dialogue) : Type 0 where
  turns : s.turns ≡ n
  bound : (n ≤ 12) ⊎ ((is_terminal s.stage ≡ true) × (n ≤ 13))

Run-IsCounted : {today n : ℕ} {s : Dialogue} → Run today n s → IsCounted n s
unfolding counted
Run-IsCounted begun = record { turns = refl; bound = inl (omega arith) }
Run-IsCounted (proved {n} {s} {s'} {o} version r e) =
    let c = Run-IsCounted r in
    let (open', q) = verify_fixture-eq s version e in ground (arith, c.turns, c.bound, open', q)
Run-IsCounted {today} (turned {n} {s} {s'} {o} p version current r e) =
    let c = Run-IsCounted r in
    let (open', q) = advance-eq today p version current s e in
    let t = take_turn-IsTurn today p current (counted s) in
    let last = take_turn-last today p current (counted s) in
    let same : s'.turns ≡ s.turns + 1 = ap (λ w. w.0.turns) q ∙ t.same_turns in
    let stage : s'.stage ≡ (take_turn today p current (counted s)).0.stage =
      ap (λ w. w.0.stage) q in
    ground (arith, c.turns, c.bound, open', same, stage, last)

-- A dialogue takes thirteen turns at most.
pub Run-bounded : {today n : ℕ} {s : Dialogue} → Run today n s → n ≤ 13
Run-bounded r = let c = Run-IsCounted r in ground (arith, c.bound)

-- Whatever is said, an amount that is held is positive and at most 10000 cents, a date that is held is
-- within thirty days, and a promise that waits or is confirmed has both and is of a verified person.
pub Run-IsSound : {today n : ℕ} {s : Dialogue} → Run today n s → IsSound today s
unfolding counted
Run-IsSound begun = record { amount = tt; due = tt; whole = tt }
Run-IsSound {today} (proved {n} {s} {s'} {o} version r e) =
    let h = Run-IsSound r in
    let (_, q) = verify_fixture-eq s version e in
    subst (IsSound today) (sym q) (record { amount = h.amount; due = h.due; whole = tt })
Run-IsSound {today} (turned {n} {s} {s'} {o} p version current r e) =
    let h = Run-IsSound r in
    let (_, q) = advance-eq today p version current s e in
    subst (λ w. IsSound today w.0) (sym q)
      (take_turn-IsSound today p current (counted s)
        (record { amount = h.amount; due = h.due; whole = ground (arith, h.whole) }))

-- What a recorded promise is.
pub record IsAgreed (today : ℕ) (s : Dialogue) (amount due : Option ℕ) : Type 0 where
  pub waited : s.stage ≡ Stage.promise_pending_confirmation
  pub verified : s.verified ≡ true
  pub amount_cents : ℕ
  pub due_date : ℕ
  pub same_amount : amount ≡ some amount_cents
  pub same_due : due ≡ some due_date
  pub amount_range : (0 < amount_cents) × (amount_cents ≤ 10000)
  pub due_range : (today ≤ due_date) × (due_date ≤ today + 30)

waiting_is : (t : Stage) → awaits_confirmation t ≡ true → t ≡ Stage.promise_pending_confirmation
waiting_is t e = ground arith

held-IsAgreed :
    (today : ℕ) (s : Dialogue)
    → IsSound today s
    → s.stage ≡ Stage.promise_pending_confirmation
    → IsAgreed today s s.amount s.due
held-IsAgreed today s h w =
    let whole = subst (λ t. Whole t s) w h.whole in
    elim (Option-cases s.amount) [
      | inl lost ↦ absurd (ground (arith, lost, whole))
      | inr (a, held) ↦ elim (Option-cases s.due) [
        | inl lost ↦ absurd (ground (arith, lost, whole))
        | inr (d, set) ↦ record {
          waited = w;
          verified = whole.2;
          amount_cents = a;
          due_date = d;
          same_amount = held;
          same_due = set;
          amount_range = subst AmountOk held h.amount;
          due_range = subst (DueOk today) set h.due;
        }
      ]
    ]

-- A turn that records a promise, in a dialogue from its start, confirms one that was read back: its
-- person is verified, its amount is positive and at most 10000 cents, and its date is within thirty days.
pub promise-IsAgreed :
    {today n : ℕ} {s s' : Dialogue} {o : Output} (p : Proposal) (version : ℕ) (current : Bool)
    (amount due : Option ℕ)
    → Run today n s
    → advance today p version current s ≡ ok (s', o)
    → o.event ≡ some (promise_event amount due)
    → IsAgreed today s amount due
unfolding counted
promise-IsAgreed {today} {s} {s'} {o} p version current amount due r e recorded =
    let (_, q) = advance-eq today p version current s e in
    let t = take_turn-IsTurn today p current (counted s) in
    let event : o.event ≡ (take_turn today p current (counted s)).1.event = ap (λ w. w.1.event) q in
    let is : is_promise (take_turn today p current (counted s)).1.event ≡ true =
      subst (λ v. is_promise v ≡ true) event
        (subst (λ v. is_promise v ≡ true) (sym recorded) refl) in
    let (waited, what) = t.confirmed is in
    let same : some (promise_event amount due) ≡ some (promise_event s.amount s.due) =
      sym recorded ∙ event ∙ what in
    let agreed = held-IsAgreed today s (Run-IsSound r) (waiting_is s.stage waited) in
    subst (λ (u : Option ℕ × Option ℕ). IsAgreed today s u.0 u.1) (cc same) agreed
