-- ===== src/Rotation/Run.antt =====
-- A whole life of a tracker: the calls that crates/silta-session/src/lib.rs makes of it, in any
-- order and at any times, with the actions they answer.
use silta.Common.{ℕ, Bool, List, [], ◌∷◌, ◌++◌, if◌then◌else◌}
use silta.Stream.{Event}
use silta.Rotation.Types.{Action, Tracker}
use silta.Rotation.Tracker.{cancel, set_note_written, marker_seen, event, tick}
use silta.Rotation.Invariant.{
  IsSound, cancel-IsSound, set_note_written-IsSound, marker_seen-IsSound, event-IsSound,
  tick-IsSound,
}

-- what the supervisor is told: an action, or that the rotation still waiting was cancelled
pub data Output : Type 0 where
  act : Action → Output
  cancelled : Output

abbrev pub acts : List Action → List Output
acts [] = []
acts (a ∷ rest) = act a ∷ acts rest

pub data Input : Type 0 where
  line : Event → Input
  clock : Input
  marker : Input
  marker_gone : Input
  note : Bool → Input

unfoldable pub feed : Tracker → ℕ → Input → Tracker × List Output
feed t now (line e) = let (t', actions) = event t e now in (t', acts actions)
feed t now clock = let (t', actions) = tick t now in (t', acts actions)
feed t now marker = let (t', actions) = marker_seen t now in (t', acts actions)
feed t now marker_gone = let (t', over) = cancel t in (t', if over then cancelled ∷ [] else [])
feed t now (note written) = (set_note_written t written, [])

-- the inputs with the times at which they come
unfoldable pub run : Tracker → List (ℕ × Input) → Tracker × List Output
run t [] = (t, [])
run t ((now, i) ∷ rest) =
    let (t', outputs) = feed t now i in let (t'', later) = run t' rest in (t'', outputs ++ later)

pub feed-IsSound : (t : Tracker) (now : ℕ) (i : Input) → IsSound t → IsSound (feed t now i).0
unfolding feed
feed-IsSound t now (line e) s = event-IsSound t e now s
feed-IsSound t now clock s = tick-IsSound t now s
feed-IsSound t now marker s = marker_seen-IsSound t now s
feed-IsSound t now marker_gone s = cancel-IsSound t s
feed-IsSound t now (note written) s = set_note_written-IsSound t written s

-- Whatever comes and whenever, the tracker stays sound.
pub run-IsSound : (t : Tracker) (is : List (ℕ × Input)) → IsSound t → IsSound (run t is).0
unfolding run
run-IsSound t [] s = s
run-IsSound t ((now, i) ∷ rest) s = run-IsSound (feed t now i).0 rest (feed-IsSound t now i s)
