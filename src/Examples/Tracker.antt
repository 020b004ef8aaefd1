-- ===== src/Examples/Tracker.antt =====
-- The rotation's theorems on a tracker with a small threshold: a turn of 900 tokens, a pause, a
-- rotation that ends in a compaction.
use silta.Common.{ℕ, ◌≤◌, ◌+◌, ◌≡◌, refl, true, false, none, some, List, [], ◌∷◌, arith, All}
use silta.Stream.{Event}
use silta.Rotation.Types.{Limits, Phase, Tracker}
use silta.Rotation.Tracker.{new, pending, tick, event, result_in, absorb}
use silta.Rotation.Invariant.{IsSound, new-IsSound, pending-IsSound}
use silta.Rotation.Run.{Input, run, feed}
use silta.Rotation.Protocol.{accept, stage}
use silta.Rotation.Refines.{run-accept}
use silta.Rotation.Outputs.{ToldOutput, feed-Told}
use silta.Rotation.Deadlines.{deadline, two_ticks_stop}
use silta.Rotation.Gap.{marks, marked_after_gap}

abbrev limits : Limits
limits = record {
  enabled = true;
  context_tokens = 800;
  idle = 60;
  quiet = 1800;
  handoff = 600;
  compact = 600;
  retry_pause = 300;
}

abbrev inputs : List (ℕ × Input)
inputs =
    (1, Input.line (Event.user true))
    ∷ (2, Input.line (Event.assistant false (some 900) false))
    ∷ (3, Input.line (Event.result false true))
    ∷ (100, Input.clock)
    ∷ (110, Input.note true)
    ∷ (111, Input.line (Event.result false false))
    ∷ (120, Input.line (Event.compacted false))
    ∷ (121, Input.line (Event.result false false))
    ∷ []

run-accept_example :
    accept (stage (new limits 0)) (run (new limits 0) inputs).1
    ≡ some (stage (run (new limits 0) inputs).0)
run-accept_example = run-accept (new limits 0) inputs (new-IsSound limits 0)

-- pending from the start, one attempt spent
abbrev postponed : Tracker
postponed = pending (new limits 0) 0 none 1 false

postponed-IsSound : IsSound postponed
postponed-IsSound =
    pending-IsSound (new limits 0) 0 none 1 false (new-IsSound limits 0) (omega arith)

feed-Told_example :
    All
      (ToldOutput postponed (feed postponed 1800 Input.clock).0)
      (feed postponed 1800 Input.clock).1
feed-Told_example = feed-Told postponed 1800 Input.clock postponed-IsSound

waits : deadline postponed.phase ≡ some 1800
unfolding pending new
waits = refl

cap : 1800 + postponed.limits.handoff ≤ 2400
unfolding pending new
cap = omega arith

two_ticks_stop_example :
    let t' = (tick (tick postponed 1800).0 2400).0 in (t'.phase ≡ Phase.idle) × (t'.pending ≡ true)
two_ticks_stop_example =
    two_ticks_stop postponed 1800 1800 2400 postponed-IsSound waits (omega arith) cap

abbrev turn : List (ℕ × Input)
turn =
    (2, Input.line (Event.assistant false (some 900) false))
    ∷ (3, Input.line (Event.result false false))
    ∷ []

marks_at_61 :
    marks (feed (run (new limits 0) ((1, Input.line (Event.user true)) ∷ turn)).0 61 Input.clock).1
    ≡ true
unfolding run feed new tick event result_in absorb
marks_at_61 = refl

marked_after_gap_example : 1 + 60 ≤ 61
unfolding new
marked_after_gap_example =
    marked_after_gap (new limits 0) 1 61 (Input.line (Event.user true)) Input.clock turn refl
      (omega arith, (omega arith, tt)) (omega arith) marks_at_61
