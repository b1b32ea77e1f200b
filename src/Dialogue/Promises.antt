-- ===== src/Dialogue/Promises.antt =====
-- What a promise of the dialogue has passed, and how long a dialogue lasts.
use luheng_fulfillops_cloud.Base.{
  ℕ, ◌+◌, ◌≤◌, ◌<◌, ◌≡◌, refl, Bool, true, Option, none, some, arith, is_some, Bool-cases, inl, inr,
}
use luheng_fulfillops_cloud.Base.Int.{ℤ}
use luheng_fulfillops_cloud.Dialogue.{
  Stage, Proposal, DueDate, Dialogue, cleared, clarify, valid_amount, valid_due, read_back,
  take_due, take_amount, confirm, offer, business, doubt, take_turn,
}

abbrev pub AmountOk : Option ℕ → Type 0
AmountOk none = Unit
AmountOk (some a) = (0 < a) × (a ≤ 10000)

abbrev pub DueOk : ℕ → Option ℕ → Type 0
DueOk today none = Unit
DueOk today (some d) = (today ≤ d) × (d ≤ today + 30)

-- A promise that waits for its confirmation is whole, and of a verified person.
abbrev pub Whole : Stage → Dialogue → Type 0
Whole Stage.promise_pending_confirmation s =
    (is_some s.amount ≡ true) × (is_some s.due ≡ true) × (s.verified ≡ true)
Whole Stage.ptp_confirmed s =
    (is_some s.amount ≡ true) × (is_some s.due ≡ true) × (s.verified ≡ true)
Whole _ s = Unit

-- What holds between the turns.
pub record IsSound (today : ℕ) (s : Dialogue) : Type 0 where
  pub amount : AmountOk s.amount
  pub due : DueOk today s.due
  pub whole : Whole s.stage s

clarify-IsSound : (today : ℕ) (s : Dialogue) → IsSound today s → IsSound today (clarify s).0
unfolding clarify cleared
clarify-IsSound today s h = ground arith

read_back-IsSound :
    (today : ℕ) (s : Dialogue)
    → s.verified ≡ true
    → s.stage ≡ Stage.collecting_promise
    → IsSound today s
    → IsSound today (read_back s).0
unfolding read_back
read_back-IsSound today s v c h = ground arith

valid_due-ok : (today : ℕ) (d : DueDate) → DueOk today (valid_due today d)
valid_due-ok today d = ground arith

valid_amount-ok : (a : ℤ) → AmountOk (valid_amount a)
valid_amount-ok a = ground arith

take_due-IsSound :
    (today : ℕ) (d : Option DueDate) (s : Dialogue)
    → s.verified ≡ true
    → s.stage ≡ Stage.collecting_promise
    → IsSound today s
    → IsSound today (take_due today d s).0
unfolding take_due
take_due-IsSound today none s v c h = read_back-IsSound today s v c h
take_due-IsSound today (some d) s v c h = elim (Bool-cases (is_some (valid_due today d))) [
  | inl good ↦ rw good (
      read_back-IsSound today (record s { due = valid_due today d }) v c
        (record { amount = h.amount; due = valid_due-ok today d; whole = ground arith }))
  | inr bad ↦ rw bad (
      clarify-IsSound today (record s { due = none })
        (record { amount = h.amount; due = tt; whole = ground arith }))
]

take_amount-IsSound :
    (today : ℕ) (a : Option ℤ) (d : Option DueDate) (s : Dialogue)
    → s.verified ≡ true
    → s.stage ≡ Stage.collecting_promise
    → IsSound today s
    → IsSound today (take_amount today a d s).0
unfolding take_amount
take_amount-IsSound today none d s v c h = take_due-IsSound today d s v c h
take_amount-IsSound today (some a) d s v c h = elim (Bool-cases (is_some (valid_amount a))) [
  | inl good ↦ rw good (
      take_due-IsSound today d (record s { amount = valid_amount a }) v c
        (record { amount = valid_amount-ok a; due = h.due; whole = ground arith }))
  | inr bad ↦ rw bad (
      clarify-IsSound today (record s { amount = none })
        (record { amount = tt; due = h.due; whole = ground arith }))
]

offer-IsSound :
    (today : ℕ) (p : Proposal) (s : Dialogue)
    → s.verified ≡ true
    → IsSound today s
    → IsSound today (offer today p s).0
unfolding offer
offer-IsSound today p s v h =
    take_amount-IsSound today p.amount_cents p.due_date
      (record s { stage = Stage.collecting_promise }) v refl
      (record { amount = h.amount; due = h.due; whole = tt })

confirm-IsSound : (today : ℕ) (s : Dialogue) → IsSound today s → IsSound today (confirm s).0
unfolding confirm
confirm-IsSound today s h = ground (arith, clarify-IsSound today s h)

business-IsSound :
    (today : ℕ) (p : Proposal) (s : Dialogue)
    → s.verified ≡ true
    → IsSound today s
    → IsSound today (business today p s).0
unfolding business cleared
business-IsSound today p s v h =
    ground
      (arith, clarify-IsSound today s h, offer-IsSound today p s v h, confirm-IsSound today s h)

doubt-IsSound : (today : ℕ) (s : Dialogue) → IsSound today s → IsSound today (doubt s)
unfolding doubt
doubt-IsSound today s h = ground arith

pub take_turn-IsSound :
    (today : ℕ) (p : Proposal) (current : Bool) (s : Dialogue)
    → IsSound today s
    → IsSound today (take_turn today p current s).0
unfolding take_turn cleared
take_turn-IsSound today p current s h = elim (Bool-cases s.verified) [
  | inl v ↦ ground (
    arith,
    v,
    clarify-IsSound today (doubt s) (doubt-IsSound today s h),
    business-IsSound today p s v h,
  )
  | inr v ↦ ground (arith, v, clarify-IsSound today (doubt s) (doubt-IsSound today s h))
]
