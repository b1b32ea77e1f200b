-- ===== src/Dialogue.antt =====
-- `SyntheticLoanDialogue` of backend/app/loan_dialogue.py: a dialogue about one made-up case of 100 yuan.
-- The types of the arguments are checked by Python at run time, and here by the types. The words of a
-- reply follow from the action and are left out. A date is kept as a number of days; a proposal holds
-- what `date.fromisoformat` makes of its text.
pub mod Promises
pub mod Turns
mod Examples
use luheng_fulfillops_cloud.Base.{
  ℕ, ◌+◌, ◌&&◌, ◌||◌, Bool, true, false, not, Option, none, some, ltb, leb, ◌==◌, if◌then◌else◌,
  is_some, Result, ok, ◌>>=◌, ◌>>◌, raise_if,
}
use luheng_fulfillops_cloud.Base.Int.{ℤ, pos, negsuc}

pub data Intent : Type 0 where
  wrong_person dispute complaint hardship human_requested identity_claim offer_promise : Intent
  confirm_promise deny_promise paid_intent unclear end_intent : Intent

-- `intent in EXCEPTIONS`
abbrev pub is_exception : Intent → Bool
is_exception wrong_person = true
is_exception dispute = true
is_exception complaint = true
is_exception hardship = true
is_exception human_requested = true
is_exception _ = false

pub data Stage : Type 0 where
  identity_pending debt_explained collecting_promise promise_pending_confirmation : Stage
  paused ptp_confirmed paid_claimed ended : Stage

abbrev pub is_terminal : Stage → Bool
is_terminal paused = true
is_terminal ptp_confirmed = true
is_terminal paid_claimed = true
is_terminal ended = true
is_terminal _ = false

abbrev pub awaits_confirmation : Stage → Bool
awaits_confirmation promise_pending_confirmation = true
awaits_confirmation _ = false

abbrev awaits_identity : Stage → Bool
awaits_identity identity_pending = true
awaits_identity _ = false

-- The date of a proposal: `bad_text` is one that `date.fromisoformat` refuses, `other_text` one that it
-- reads and prints differently.
pub data DueDate : Type 0 where
  bad_text other_text : DueDate
  day_of : ℕ → DueDate

pub record Proposal : Type 0 where
  pub intent : Intent
  pub amount_cents : Option ℤ
  pub due_date : Option DueDate
  pub uncertain : Bool

pub record Dialogue : Type 0 where
  pub version : ℕ
  pub stage : Stage
  pub turns : ℕ
  pub amount : Option ℕ
  pub due : Option ℕ
  pub clarifications : ℕ
  pub verified : Bool

pub data Event : Type 0 where
  identity_verified paid_event end_event : Event
  exception_event : Intent → Event
  promise_event : Option ℕ → Option ℕ → Event

pub data Action : Type 0 where
  explain_fixture_debt clarify_action handoff pause end_action request_verification : Action
  verify_payment ask_arrangement propose_record_promise ask_amount ask_date readback_promise :
      Action

pub record Output : Type 0 where
  pub action : Action
  pub event : Option Event

pub data DialogueError : Type 0 where
  stale_dialogue_version dialogue_terminal fixture_already_verified : DialogueError

abbrev pub start : Dialogue
start = record {
  version = 1;
  stage = identity_pending;
  turns = 0;
  amount = none;
  due = none;
  clarifications = 0;
  verified = false;
}

unfoldable pub check : Dialogue → ℕ → Result DialogueError (Unit {0})
check s expected_version = do
  raise_if (not (expected_version == s.version)) stale_dialogue_version
  raise_if (is_terminal s.stage) dialogue_terminal
  ok tt

unfoldable pub verify_fixture : Dialogue → ℕ → Result DialogueError (Dialogue × Output)
verify_fixture s expected_version = do
  check s expected_version
  raise_if (not (awaits_identity s.stage)) fixture_already_verified
  ok (
    record s { verified = true; stage = debt_explained; version = s.version + 1 },
    record { action = explain_fixture_debt; event = some identity_verified },
  )

-- The stage that a turn ends in, with nothing of a promise kept.
unfoldable pub cleared : Dialogue → Stage → Dialogue
cleared s stage = record s { amount = none; due = none; stage = stage }

abbrev say : Dialogue → Action → Option Event → Dialogue × Output
say s action event = (s, record { action = action; event = event })

unfoldable pub clarify : Dialogue → Dialogue × Output
unfolding cleared
clarify s =
    if leb 3 (s.clarifications + 1)
    then say (cleared (record s { clarifications = s.clarifications + 1 }) paused) handoff none
    else say (record s { clarifications = s.clarifications + 1 }) clarify_action none

-- `0 < amount_cents <= 10_000`
abbrev pub valid_amount : ℤ → Option ℕ
valid_amount (negsuc _) = none
valid_amount (pos n) = if ltb 0 n && leb n 10000 then some n else none

abbrev pub valid_due : ℕ → DueDate → Option ℕ
valid_due today bad_text = none
valid_due today other_text = none
valid_due today (day_of d) = if leb today d && leb d (today + 30) then some d else none

-- The end of a turn with a promise: what is missing is asked for, and a whole one is read back.
unfoldable pub read_back : Dialogue → Dialogue × Output
read_back s =
    if not (is_some s.amount)
    then say s ask_amount none
    else if not (is_some s.due)
    then say s ask_date none
    else say (record s { clarifications = 0; stage = promise_pending_confirmation })
        readback_promise none

unfoldable pub take_due : ℕ → Option DueDate → Dialogue → Dialogue × Output
take_due today none s = read_back s
take_due today (some d) s =
    let due : Option ℕ = valid_due today d in
    if is_some due then read_back (record s { due = due }) else clarify (record s { due = none })

unfoldable pub take_amount : ℕ → Option ℤ → Option DueDate → Dialogue → Dialogue × Output
take_amount today none due s = take_due today due s
take_amount today (some a) due s =
    let amount : Option ℕ = valid_amount a in
    if is_some amount
    then take_due today due (record s { amount = amount })
    else clarify (record s { amount = none })

unfoldable pub confirm : Dialogue → Dialogue × Output
confirm s =
    if awaits_confirmation s.stage
    then say (record s { stage = ptp_confirmed }) propose_record_promise
        (some (promise_event s.amount s.due))
    else clarify s

unfoldable pub offer : ℕ → Proposal → Dialogue → Dialogue × Output
offer today p s =
    take_amount today p.amount_cents p.due_date (record s { stage = collecting_promise })

-- A turn of a verified person that is neither an exception nor the end.
unfoldable pub business : ℕ → Proposal → Dialogue → Dialogue × Output
unfolding cleared
business today p s = elim p.intent [
  | paid_intent ↦ say (cleared s paid_claimed) verify_payment (some paid_event)
  | deny_promise ↦
      say (record (cleared s debt_explained) { clarifications = 0 }) ask_arrangement none
  | confirm_promise ↦
      if not (is_some p.amount_cents) && not (is_some p.due_date)
      then confirm s
      else offer today p s
  | offer_promise ↦ offer today p s
  | _ ↦ clarify s
]

abbrev is_unclear : Intent → Bool
is_unclear unclear = true
is_unclear _ = false

abbrev is_end : Intent → Bool
is_end end_intent = true
is_end _ = false

-- A doubtful turn takes back a promise that waits for its confirmation.
unfoldable pub doubt : Dialogue → Dialogue
doubt s = record s { stage = if awaits_confirmation s.stage then collecting_promise else s.stage }

unfoldable pub take_turn : ℕ → Proposal → Bool → Dialogue → Dialogue × Output
unfolding cleared
take_turn today p context_current s =
    if not context_current || ltb 12 s.turns
    then say (cleared s paused) pause none
    else if p.uncertain || is_unclear p.intent
    then clarify (doubt s)
    else if is_exception p.intent
    then say (cleared s paused) handoff (some (exception_event p.intent))
    else if is_end p.intent
    then say (cleared s ended) end_action (some end_event)
    else if not s.verified
    then say (record s { amount = none; due = none }) request_verification none
    else business today p s

unfoldable pub advance :
    ℕ → Proposal → ℕ → Bool → Dialogue → Result DialogueError (Dialogue × Output)
advance today p expected_version context_current s = do
  check s expected_version
  ok (take_turn today p context_current (record s { version = s.version + 1; turns = s.turns + 1 }))
