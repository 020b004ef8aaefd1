-- ===== src/Rotation/Refines.antt =====
-- The tracker refines the protocol: what it answers is what the automaton reads.
use silta.Common.{ℕ, Bool, ◌≡◌, refl, some, List, [], ◌∷◌, arith}
use silta.Stream
use silta.Stream.{Event}
use silta.Rotation.Types.{Tracker}
use silta.Rotation.Tracker.{
  cancel, advance, set_pending, set_note_written, marker_seen, result_in, absorb, react, event,
  tick,
}
use silta.Rotation.Invariant.{IsSound, absorb-IsSound, set_pending-IsSound}
use silta.Rotation.Run.{Input, feed, acts, run, feed-IsSound}
use silta.Rotation.Protocol.{accept, accept-append, stage}

advance-accept :
    (t : Tracker) (now : ℕ)
    → IsSound t
    → accept (stage t) (acts (advance t now).1) ≡ some (stage (advance t now).0)
unfolding advance accept
advance-accept t now s = ground arith

result_in-accept :
    (t : Tracker) (e : Bool) (now : ℕ)
    → IsSound t
    → accept (stage t) (acts (result_in t.phase t e now).1)
      ≡ some (stage (result_in t.phase t e now).0)
unfolding result_in accept
result_in-accept t e now s = ground (arith, advance-accept t now s)

stage-absorb : (t : Tracker) (e : Event) (now : ℕ) → stage (absorb t e now) ≡ stage t
unfolding absorb
stage-absorb t (Stream.Event.init a b) now = refl
stage-absorb t _ now = ground arith

stage-set_pending : (t : Tracker) (now : ℕ) → IsSound t → stage (set_pending t now) ≡ stage t
unfolding set_pending
stage-set_pending t now s = ground arith

react-accept :
    (t : Tracker) (e : Event) (now : ℕ)
    → IsSound t
    → accept (stage t) (acts (react t e now).1) ≡ some (stage (react t e now).0)
react-accept t (Stream.Event.result is_error person) now s = result_in-accept t is_error now s
react-accept t _ now s = advance-accept t now s

event-accept :
    (t : Tracker) (e : Event) (now : ℕ)
    → IsSound t
    → accept (stage t) (acts (event t e now).1) ≡ some (stage (event t e now).0)
unfolding event
event-accept t e now s =
    rw (stage-absorb t e now) at (react-accept (absorb t e now) e now (absorb-IsSound t e now s))

marker_seen-accept :
    (t : Tracker) (now : ℕ)
    → IsSound t
    → accept (stage t) (acts (marker_seen t now).1) ≡ some (stage (marker_seen t now).0)
unfolding marker_seen accept
marker_seen-accept t now s = ground (
  arith,
  stage-set_pending t now s,
  advance-accept (set_pending t now) now (set_pending-IsSound t now s),
)

tick-accept :
    (t : Tracker) (now : ℕ)
    → IsSound t
    → accept (stage t) (acts (tick t now).1) ≡ some (stage (tick t now).0)
unfolding tick accept
tick-accept t now s = ground (
  arith,
  stage-set_pending t now s,
  advance-accept t now s,
  advance-accept (set_pending t now) now (set_pending-IsSound t now s),
)

feed-accept :
    (t : Tracker) (now : ℕ) (i : Input)
    → IsSound t
    → accept (stage t) (feed t now i).1 ≡ some (stage (feed t now i).0)
unfolding feed
feed-accept t now (Input.line e) s = event-accept t e now s
feed-accept t now Input.clock s = tick-accept t now s
feed-accept t now Input.marker s = marker_seen-accept t now s
feed-accept t now Input.marker_gone s = unfold cancel accept in ground arith
feed-accept t now (Input.note written) s = unfold set_note_written accept in refl

-- From a sound tracker, whatever lines, ticks, marker sightings and removals come and whenever,
-- the actions and cancellations answered are a word of the rotation protocol, which leads from
-- the tracker's stage before to its stage after.
pub run-accept :
    (t : Tracker) (inputs : List (ℕ × Input))
    → IsSound t
    → accept (stage t) (run t inputs).1 ≡ some (stage (run t inputs).0)
unfolding run
run-accept t [] s = unfold accept in refl
run-accept t ((now, i) ∷ rest) s =
    rw
      (
        accept-append (stage t) (feed t now i).1 (run (feed t now i).0 rest).1,
        feed-accept t now i s,
      )
      (run-accept (feed t now i).0 rest (feed-IsSound t now i s))
