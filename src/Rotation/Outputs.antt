-- ===== src/Rotation/Outputs.antt =====
-- crates/silta-session/src/rotation.rs: what each output says of the tracker that gave it.
use silta.Common.{
  ℕ, ◌+◌, ◌<◌, ◌≡◌, refl, Bool, true, false, none, List, [], ◌∷◌, arith, All, inl, inr, Bool-cases,
  if◌then◌else◌, not,
}
use silta.Stream
use silta.Stream.{Event}
use silta.Rotation.Types.{Action, Phase, Tracker, before_handoff, handoff_attempts}
use silta.Rotation.Tracker.{
  cancel, advance, set_pending, marker_seen, result_in, absorb, react, event, tick, quiet,
  is_waiting, trips,
}
use silta.Rotation.Invariant.{IsSound, absorb-IsSound, set_pending-IsSound}
use silta.Rotation.Run.{Input, Output, act, acts, cancelled, feed}

-- `t` before the call and `t'` after it
abbrev pub Told : Tracker → Tracker → Action → Type 0
Told t t' (Action.retry step n handoff) =
    (n ≡ t.attempts + 1) × (n < handoff_attempts) × (t'.attempts ≡ n) × (handoff ≡ t'.handoff)
Told t t' (Action.postpone step n handoff) =
    (n ≡ t.attempts + 1) × (n < handoff_attempts) × (t'.attempts ≡ n) × (handoff ≡ t'.handoff)
Told t t' (Action.give_up step was_cut handoff) =
    (t.attempts + 1 ≡ handoff_attempts) × (handoff ≡ t'.handoff)
Told t t' (Action.snapshot before_handoff) = (t.attempts ≡ 0) × (quiet t' ≡ true)
Told t t' Action.request_handoff = quiet t' ≡ true
Told t t' Action.compact = (t.note_written ≡ true) × (t'.handoff ≡ true) × (t'.turn ≡ false)
Told t t' Action.compacted =
    (t'.pending ≡ false)
    × (t'.attempts ≡ 0)
    × (t'.not_before ≡ none)
    × (t'.handoff ≡ false)
    × (t'.phase ≡ Phase.idle)
Told t t' _ = Unit

abbrev pub AllTold : Tracker → Tracker × List Action → Type 0
AllTold t r = All (Told t r.0) r.1

advance-Told : (t : Tracker) (now : ℕ) → IsSound t → AllTold t (advance t now)
unfolding advance
advance-Told t now s = ground arith

result_in-Told :
    (t : Tracker) (e : Bool) (now : ℕ)
    → IsSound t
    → t.turn ≡ false
    → AllTold t (result_in t.phase t e now)
unfolding result_in
result_in-Told t e now s q = ground (arith, advance-Told t now s)

Told-absorb :
    (t t' : Tracker) (e : Event) (now : ℕ) (xs : List Action)
    → All (Told (absorb t e now) t') xs
    → All (Told t t') xs
unfolding absorb
Told-absorb t t' (Stream.Event.init _ _) now xs h = h
Told-absorb t t' _ now xs h = h

react-Told :
    (t : Tracker) (e : Event) (now : ℕ)
    → IsSound t
    → AllTold (absorb t e now) (react (absorb t e now) e now)
unfolding absorb
react-Told t (Stream.Event.result is_error person) now s =
    result_in-Told (absorb t (Stream.Event.result is_error person) now) is_error now
      (absorb-IsSound t (Stream.Event.result is_error person) now s) refl
react-Told t (Stream.Event.init a b) now s = advance-Told t now s
react-Told t (Stream.Event.assistant a b c) now s =
    advance-Told _ now (absorb-IsSound t (Stream.Event.assistant a b c) now s)
react-Told t (Stream.Event.user a) now s =
    advance-Told _ now (absorb-IsSound t (Stream.Event.user a) now s)
react-Told t (Stream.Event.background_tasks a) now s =
    advance-Told _ now (absorb-IsSound t (Stream.Event.background_tasks a) now s)
react-Told t (Stream.Event.compacted a) now s =
    advance-Told _ now (absorb-IsSound t (Stream.Event.compacted a) now s)
react-Told t Stream.Event.compaction_failed now s =
    advance-Told _ now (absorb-IsSound t Stream.Event.compaction_failed now s)
react-Told t _ now s = advance-Told t now s

event-Told : (t : Tracker) (e : Event) (now : ℕ) → IsSound t → AllTold t (event t e now)
unfolding event
event-Told t e now s =
    Told-absorb t (event t e now).0 e now (event t e now).1 (react-Told t e now s)

Told-set_pending :
    (t t' : Tracker) (now : ℕ) (xs : List Action)
    → All (Told (set_pending t now) t') xs
    → All (Told t t') xs
unfolding set_pending
Told-set_pending t t' now xs h = elim (Bool-cases t.pending) [
  | inl p ↦ rw p at h
  | inr p ↦ rw p at h
]

started-Told : (t : Tracker) (now : ℕ) → IsSound t → AllTold t (advance (set_pending t now) now)
started-Told t now s =
    Told-set_pending t (advance (set_pending t now) now).0 now (advance (set_pending t now) now).1
      (advance-Told (set_pending t now) now (set_pending-IsSound t now s))

AllTold-if :
    (t : Tracker) (b : Bool) (x y : Tracker × List Action)
    → AllTold t x
    → AllTold t y
    → AllTold t (if b then x else y)
AllTold-if t true x y hx hy = hx
AllTold-if t false x y hx hy = hy

marker_seen-Told : (t : Tracker) (now : ℕ) → IsSound t → AllTold t (marker_seen t now)
unfolding marker_seen
marker_seen-Told t now s =
    AllTold-if t (not t.limits.enabled) (t, []) (advance (set_pending t now) now) tt
      (started-Told t now s)

tick-Told : (t : Tracker) (now : ℕ) → IsSound t → AllTold t (tick t now)
unfolding tick
tick-Told t now s =
    let (t', actions) = advance (set_pending t now) now in
    AllTold-if t (trips t now) (t', Action.mark_pending ∷ actions) (advance t now)
      (tt, started-Told t now s) (advance-Told t now s)

abbrev pub ToldOutput : Tracker → Tracker → Output → Type 0
ToldOutput t t' (act a) = Told t t' a
ToldOutput t t' cancelled = (is_waiting t.phase ≡ true) × (t'.pending ≡ false) × (t'.attempts ≡ 0)

acts-Told :
    (t t' : Tracker) (xs : List Action) → All (Told t t') xs → All (ToldOutput t t') (acts xs)
acts-Told t t' [] h = tt
acts-Told t t' (x ∷ xs) h = (h.0, acts-Told t t' xs h.1)

-- Whatever a sound tracker is fed, each of its outputs tells the truth of the tracker before and
-- after: a retry or a postponement counts one more attempt than before and fewer than
-- `HANDOFF_ATTEMPTS`, giving up comes with the last attempt and no sooner, and all three carry
-- the flag of a completed handoff; the handoff is requested, and the first snapshot taken, at a
-- quiet moment only, the snapshot with no attempt spent; `/compact` follows a written note and
-- the end of a turn; a finished compaction or a cancelled wait leaves no rotation behind.
pub feed-Told :
    (t : Tracker) (now : ℕ) (i : Input)
    → IsSound t
    → All (ToldOutput t (feed t now i).0) (feed t now i).1
unfolding feed
feed-Told t now (Input.line e) s =
    acts-Told t (event t e now).0 (event t e now).1 (event-Told t e now s)
feed-Told t now Input.clock s = acts-Told t (tick t now).0 (tick t now).1 (tick-Told t now s)
feed-Told t now Input.marker s =
    acts-Told t (marker_seen t now).0 (marker_seen t now).1 (marker_seen-Told t now s)
feed-Told t now Input.marker_gone s = unfold cancel in ground arith
feed-Told t now (Input.note written) s = tt
