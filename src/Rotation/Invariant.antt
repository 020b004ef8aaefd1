-- ===== src/Rotation/Invariant.antt =====
-- What holds of a tracker between two calls of its methods.
use silta.Common.{
  ℕ, ◌||◌, ◌&&◌, ◌==◌, not, ltb, is_none, ◌≤◌, ◌<◌, ◌≡◌, Bool, true, false, Option, none, some,
  arith,
}
use silta.Stream
use silta.Stream.{Event}
use silta.Rotation.Types.{Limits, Step, Phase, Tracker, handoff_attempts}
use silta.Rotation.Tracker.{
  new, pending, retrying, done, cancel, cut, failed, advance, set_pending, set_note_written,
  marker_seen, result_in, absorb, react, event, tick, is_idle,
}

abbrev pub is_compacting : Phase → Bool
is_compacting (Phase.compacting _ _ _) = true
is_compacting _ = false

-- the pause after a failed attempt ends before the cap on the wait
abbrev pub PauseFits : Option ℕ → Phase → Type 0
PauseFits (some p) (Phase.waiting deadline) = p ≤ deadline
PauseFits _ _ = Unit

pub record IsSound (t : Tracker) : Type 0 where
  -- a rotation that waits for something is pending, with an attempt left
  pub active : (is_idle t.phase || (t.pending && ltb t.attempts handoff_attempts)) ≡ true
  -- without a rotation nothing of one is left
  pub settled : (t.pending || (t.attempts == 0 && (is_none t.not_before && not t.handoff))) ≡ true
  pub pause_fits : PauseFits t.not_before t.phase
  -- a compaction follows a completed handoff
  pub compacting_handoff : (not (is_compacting t.phase) || t.handoff) ≡ true

pub new-IsSound : (l : Limits) (now : ℕ) → IsSound (new l now)
unfolding new
new-IsSound l now = ground arith

pub pending-IsSound :
    (t : Tracker) (now : ℕ) (pause : Option ℕ) (attempts : ℕ) (handoff : Bool)
    → IsSound t
    → attempts < handoff_attempts
    → IsSound (pending t now pause attempts handoff)
unfolding pending
pending-IsSound t now none attempts handoff s h = ground arith
pending-IsSound t now (some p) attempts handoff s h = ground arith

pub retrying-IsSound :
    (t : Tracker) (now attempts : ℕ) (handoff : Bool)
    → IsSound t
    → attempts < handoff_attempts
    → IsSound (retrying t now attempts handoff)
unfolding retrying
retrying-IsSound t now attempts handoff s h = ground arith

pub done-IsSound : (t : Tracker) → IsSound (done t)
unfolding done
done-IsSound t = ground arith

pub cancel-IsSound : (t : Tracker) → IsSound t → IsSound (cancel t).0
unfolding cancel
cancel-IsSound t s = ground arith

pub set_note_written-IsSound : (t : Tracker) (b : Bool) → IsSound t → IsSound (set_note_written t b)
unfolding set_note_written
set_note_written-IsSound t b s = ground arith

-- a cut or a failure leaves the rotation pending and the machine at rest
cut-IsSound : (t : Tracker) (step : Step) → t.pending ≡ true → IsSound (cut t step).0
unfolding cut
cut-IsSound t step p = ground arith

failed-IsSound :
    (t : Tracker) (step : Step) (now : ℕ) → t.pending ≡ true → IsSound (failed t step now).0
unfolding failed
failed-IsSound t step now p = ground arith

pub advance-IsSound : (t : Tracker) (now : ℕ) → IsSound t → IsSound (advance t now).0
unfolding advance
advance-IsSound t now s = ground (arith, cut-IsSound t Step.wait)

pub set_pending-IsSound : (t : Tracker) (now : ℕ) → IsSound t → IsSound (set_pending t now)
unfolding set_pending
set_pending-IsSound t now s = ground arith

pub marker_seen-IsSound : (t : Tracker) (now : ℕ) → IsSound t → IsSound (marker_seen t now).0
unfolding marker_seen
marker_seen-IsSound t now s =
    ground (arith, advance-IsSound (set_pending t now) now (set_pending-IsSound t now s))

pub result_in-IsSound :
    (t : Tracker) (is_error : Bool) (now : ℕ)
    → IsSound t
    → IsSound (result_in t.phase t is_error now).0
unfolding result_in
result_in-IsSound t e now s = ground (
  arith,
  advance-IsSound t now s,
  failed-IsSound t Step.handoff now,
  failed-IsSound t Step.compaction now,
  done-IsSound t,
)

pub absorb-IsSound : (t : Tracker) (e : Event) (now : ℕ) → IsSound t → IsSound (absorb t e now)
unfolding absorb
absorb-IsSound t (Stream.Event.init a b) now s = s
absorb-IsSound t _ now s = ground arith

react-IsSound : (t : Tracker) (e : Event) (now : ℕ) → IsSound t → IsSound (react t e now).0
react-IsSound t (Stream.Event.result is_error person) now s = result_in-IsSound t is_error now s
react-IsSound t _ now s = advance-IsSound t now s

-- Each event keeps the invariant: what it records keeps it, and so does the step that follows.
pub event-IsSound : (t : Tracker) (e : Event) (now : ℕ) → IsSound t → IsSound (event t e now).0
unfolding event
event-IsSound t e now s = react-IsSound (absorb t e now) e now (absorb-IsSound t e now s)

pub tick-IsSound : (t : Tracker) (now : ℕ) → IsSound t → IsSound (tick t now).0
unfolding tick
tick-IsSound t now s = ground (
  arith,
  advance-IsSound t now s,
  advance-IsSound (set_pending t now) now (set_pending-IsSound t now s),
)
