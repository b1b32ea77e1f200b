-- ===== src/Dialogue/Examples.antt =====
-- A dialogue that ends in a promise, and the theorems at it.
use luheng_fulfillops_cloud.Base.{ℕ, ◌≤◌, ◌≡◌, refl, true, false, none, some, ok, err, Result}
use luheng_fulfillops_cloud.Base.Int.{pos}
use luheng_fulfillops_cloud.Dialogue.{
  Stage, Proposal, DueDate, Dialogue, Output, offer_promise, confirm_promise, promise_event, start,
  check, verify_fixture, advance, take_turn, business, offer, take_amount, take_due, read_back,
  confirm, ask_amount, DialogueError, stale_dialogue_version,
}
use luheng_fulfillops_cloud.Dialogue.Promises.{IsSound}
use luheng_fulfillops_cloud.Dialogue.Turns.{
  Run, begun, proved, turned, Run-bounded, Run-IsSound, IsAgreed, promise-IsAgreed,
}

abbrev today : ℕ
today = 100

abbrev reached : Result DialogueError (Dialogue × Output) → Dialogue
reached (ok w) = w.0
reached (err _) = start

abbrev said : Result DialogueError (Dialogue × Output) → Output
said (ok w) = w.1
said (err _) = record { action = ask_amount; event = none }

abbrev proposal : Proposal
proposal = record {
  intent = offer_promise;
  amount_cents = some (pos 5000);
  due_date = some (DueDate.day_of 110);
  uncertain = false;
}

abbrev yes : Proposal
yes = record { intent = confirm_promise; amount_cents = none; due_date = none; uncertain = false }

abbrev known : Dialogue
known = record start { verified = true; stage = Stage.debt_explained; version = 2 }

abbrev asked : Dialogue
asked = record known {
  stage = Stage.promise_pending_confirmation;
  version = 3;
  turns = 1;
  amount = some 5000;
  due = some 110;
}

abbrev promised : Dialogue
promised = record asked { stage = Stage.ptp_confirmed; version = 4; turns = 2 }

known_next : verify_fixture start 1 ≡ ok (known, said (verify_fixture start 1))
unfolding verify_fixture check
known_next = refl

asked_next :
    advance today proposal 2 true known ≡ ok (asked, said (advance today proposal 2 true known))
unfolding advance check take_turn business offer take_amount take_due read_back
asked_next = refl

promised_next :
    advance today yes 3 true asked ≡ ok (promised, said (advance today yes 3 true asked))
unfolding advance check take_turn business confirm
promised_next = refl

recorded :
    (said (advance today yes 3 true asked)).event ≡ some (promise_event (some 5000) (some 110))
unfolding advance check take_turn business confirm
recorded = refl

-- A confirmation that was given before the last turn is refused.
late_answer : advance today yes 2 true asked ≡ err stale_dialogue_version
unfolding advance check
late_answer = refl

asked-Run : Run today 1 asked
asked-Run = turned proposal 2 true (proved 1 begun known_next) asked_next

promised-Run : Run today 2 promised
promised-Run = turned yes 3 true asked-Run promised_next

Run-bounded_example : 2 ≤ 13
Run-bounded_example = Run-bounded promised-Run

Run-IsSound_example : IsSound today promised
Run-IsSound_example = Run-IsSound promised-Run

promise-IsAgreed_example : IsAgreed today asked (some 5000) (some 110)
promise-IsAgreed_example =
    promise-IsAgreed yes 3 true (some 5000) (some 110) asked-Run promised_next recorded
