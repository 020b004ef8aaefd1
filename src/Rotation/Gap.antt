-- ===== src/Rotation/Gap.antt =====
-- crates/silta-session/src/rotation.rs: the idle gap of the threshold trigger, measured from the
-- last message of a person.
use silta.Common.{
  ℕ, ◌+◌, ◌≤◌, ◌<◌, ◌≡◌, refl, ◌∙◌, Bool, true, false, ◌⊎◌, List, [], ◌∷◌, arith, All,
}
use silta.Stream
use silta.Stream.{Event}
use silta.Rotation.Types.{Action, Tracker}
use silta.Rotation.Tracker.{
  cancel, advance, set_pending, set_note_written, marker_seen, result_in, absorb, react, event,
  tick, seen_person,
}
use silta.Rotation.Run.{Input, Output, act, acts, feed, run}

-- a channel delivery, or the end of a turn that one started
abbrev pub from_person : Input → Bool
from_person (Input.line (Stream.Event.user person)) = person
from_person (Input.line (Stream.Event.result _ person)) = person
from_person _ = false

abbrev pub marks : List Output → Bool
marks [] = false
marks (act Action.mark_pending ∷ _) = true
marks (_ ∷ rest) = marks rest

-- `advance` and the arms of a turn's end leave the gap and the limits alone, and mark nothing
record KeepsGap (t : Tracker) (r : Tracker × List Action) : Type 0 where
  last_person : r.0.last_person ≡ t.last_person
  idle : r.0.limits.idle ≡ t.limits.idle
  unmarked : marks (acts r.1) ≡ false

advance-KeepsGap : (t : Tracker) (now : ℕ) → KeepsGap t (advance t now)
unfolding advance
advance-KeepsGap t now = ground arith

result_in-KeepsGap : (t : Tracker) (e : Bool) (now : ℕ) → KeepsGap t (result_in t.phase t e now)
unfolding result_in
result_in-KeepsGap t e now = ground (arith, advance-KeepsGap t now)

react-KeepsGap : (t : Tracker) (e : Event) (now : ℕ) → KeepsGap t (react t e now)
react-KeepsGap t (Stream.Event.result is_error person) now = result_in-KeepsGap t is_error now
react-KeepsGap t _ now = advance-KeepsGap t now

absorb-gap :
    (t : Tracker) (e : Event) (now : ℕ)
    → ((absorb t e now).last_person ≡ seen_person (from_person (Input.line e)) now t.last_person)
      × ((absorb t e now).limits.idle ≡ t.limits.idle)
unfolding absorb
absorb-gap t (Stream.Event.init _ _) now = (refl, refl)
absorb-gap t _ now = (ground arith, ground arith)

-- what an input does to the gap, and what marking says of it
record Gap (t : Tracker) (now : ℕ) (i : Input) (r : Tracker × List Output) : Type 0 where
  last_person : r.0.last_person ≡ seen_person (from_person i) now t.last_person
  idle : r.0.limits.idle ≡ t.limits.idle
  marked : marks r.1 ≡ true → t.last_person + t.limits.idle ≤ now ⊎ (t.limits.idle ≡ 0)

set_pending-gap :
    (t : Tracker) (now : ℕ)
    → ((set_pending t now).last_person ≡ t.last_person)
      × ((set_pending t now).limits.idle ≡ t.limits.idle)
unfolding set_pending
set_pending-gap t now = ground arith

feed-Gap : (t : Tracker) (now : ℕ) (i : Input) → Gap t now i (feed t now i)
unfolding feed
feed-Gap t now (Input.line e) =
    unfold event in ground (arith, react-KeepsGap (absorb t e now) e now, absorb-gap t e now)
feed-Gap t now Input.clock =
    unfold tick in
    ground (
      arith,
      advance-KeepsGap t now,
      advance-KeepsGap (set_pending t now) now,
      set_pending-gap t now,
    )
feed-Gap t now Input.marker =
    unfold marker_seen in
    ground (arith, advance-KeepsGap (set_pending t now) now, set_pending-gap t now)
feed-Gap t now Input.marker_gone = unfold cancel in ground arith
feed-Gap t now (Input.note written) = unfold set_note_written in ground arith

-- a person seen at `seen` stays seen while no input is stamped earlier
run-gap :
    (t : Tracker) (seen : ℕ) (inputs : List (ℕ × Input))
    → seen ≤ t.last_person
    → All (λ (p : ℕ × Input). seen ≤ p.0) inputs
    → (seen ≤ (run t inputs).0.last_person) × ((run t inputs).0.limits.idle ≡ t.limits.idle)
unfolding run
run-gap t seen [] h a = (h, refl)
run-gap t seen ((now, i) ∷ rest) h a =
    let g = feed-Gap t now i in
    let (later, same) = run-gap (feed t now i).0 seen rest (ground (arith, g)) a.1 in
    (later, same ∙ g.idle)

-- After a person's message (its delivery, or the end of the turn it started), nothing marks a
-- rotation by the threshold before the idle gap has passed in full, whatever happens in between:
-- timer wakeups, the session's own turns, background tasks and rotations do not shorten it. (The
-- gap is positive, and no input in between carries a time before the message's.)
pub marked_after_gap :
    (t : Tracker) (seen now : ℕ) (i j : Input) (inputs : List (ℕ × Input))
    → from_person i ≡ true
    → All (λ (p : ℕ × Input). seen ≤ p.0) inputs
    → 0 < t.limits.idle
    → marks (feed (run t ((seen, i) ∷ inputs)).0 now j).1 ≡ true
    → seen + t.limits.idle ≤ now
unfolding run
marked_after_gap t seen now i j inputs p a pos m =
    let g = feed-Gap t seen i in
    let (later, same) = run-gap (feed t seen i).0 seen inputs (ground (arith, g)) a in
    let g' = feed-Gap (run (feed t seen i).0 inputs).0 now j in
    ground (arith, g, later, same, g', g'.marked m)
