-- ===== src/Rotation/Deadlines.antt =====
-- The three caps: each wait has a deadline that nothing moves, and a tick past it ends the wait.
use silta.Common.{
  ℕ, ◌+◌, ◌≤◌, ◌≡◌, refl, sym, ◌∙◌, ◌⊎◌, inl, inr, Bool, true, false, Option, none, some, arith,
}
use silta.Stream
use silta.Stream.{Event}
use silta.Rotation.Types.{Phase, Tracker}
use silta.Rotation.Tracker.{
  cancel, advance, set_pending, set_note_written, marker_seen, result_in, absorb, react, event,
  tick, is_waiting, is_idle,
}
use silta.Rotation.Invariant.{IsSound, tick-IsSound}
use silta.Rotation.Run.{Input, feed}

abbrev pub deadline : Phase → Option ℕ
deadline Phase.idle = none
deadline (Phase.waiting d) = some d
deadline (Phase.handing_off d) = some d
deadline (Phase.compacting d _ _) = some d

-- A tick at or after the deadline of a wait ends it: the machine is at rest with the rotation
-- still pending (a cut), or, where it waited for a quiet moment that has come, it has requested
-- the handoff and waits for that under a deadline of its own.
pub tick_at_deadline :
    (t : Tracker) (d now : ℕ)
    → IsSound t
    → deadline t.phase ≡ some d
    → d ≤ now
    → ((tick t now).0.phase ≡ Phase.idle) × ((tick t now).0.pending ≡ true)
      ⊎ (is_waiting t.phase ≡ true)
        × ((tick t now).0.phase ≡ Phase.handing_off (now + t.limits.handoff))
        × ((tick t now).0.pending ≡ true)
unfolding tick
tick_at_deadline t d now s e h = ground arith

pending-tick : (t : Tracker) (now : ℕ) → t.pending ≡ true → (tick t now).0.pending ≡ true
unfolding tick
pending-tick t now p = ground arith

rest-tick :
    (t : Tracker) (now : ℕ)
    → t.phase ≡ Phase.idle
    → t.pending ≡ true
    → (tick t now).0.phase ≡ Phase.idle
unfolding tick
rest-tick t now e p = ground arith

tick_twice :
    (t u : Tracker) (later : ℕ)
    → IsSound u
    → (u.phase ≡ Phase.idle) × (u.pending ≡ true)
      ⊎ (is_waiting t.phase ≡ true) × (u.phase ≡ Phase.handing_off later) × (u.pending ≡ true)
    → (n : ℕ) → later ≤ n
    → ((tick u n).0.phase ≡ Phase.idle) × ((tick u n).0.pending ≡ true)
tick_twice t u later s (inl rest) n h = (rest-tick u n rest.0 rest.1, pending-tick u n rest.1)
tick_twice t u later s (inr moved) n h = elim (tick_at_deadline u later n s (ground arith) h) [
  | inl over ↦ over
  | inr again ↦ absurd (ground arith)
]

-- Two ticks, the first at or after the deadline of the wait in progress and the second at least
-- the handoff cap later, bring a rotation to rest whatever it waited for: no wait outlasts the caps.
pub two_ticks_stop :
    (t : Tracker) (d first second : ℕ)
    → IsSound t
    → deadline t.phase ≡ some d
    → d ≤ first
    → first + t.limits.handoff ≤ second
    → let t' = (tick (tick t first).0 second).0 in (t'.phase ≡ Phase.idle) × (t'.pending ≡ true)
two_ticks_stop t d first second s e h k =
    tick_twice t (tick t first).0 (first + t.limits.handoff) (tick-IsSound t first s)
      (tick_at_deadline t d first s e h) second k

abbrev pub rank : Phase → ℕ
rank Phase.idle = 0
rank (Phase.waiting _) = 1
rank (Phase.handing_off _) = 2
rank (Phase.compacting _ _ _) = 3

abbrev DeadlineKept : Phase → Phase → Type 0
DeadlineKept p q = rank q ≡ rank p → deadline q ≡ deadline p

advance-deadline : (t : Tracker) (now : ℕ) → DeadlineKept t.phase (advance t now).0.phase
unfolding advance
advance-deadline t now h = ground arith

absorb-deadline :
    (t : Tracker) (e : Event) (now : ℕ)
    → (deadline (absorb t e now).phase ≡ deadline t.phase)
      × (rank (absorb t e now).phase ≡ rank t.phase)
unfolding absorb
absorb-deadline t (Stream.Event.init _ _) now = (refl, refl)
absorb-deadline t _ now = (ground arith, ground arith)

result_in-deadline :
    (t : Tracker) (e : Bool) (now : ℕ) → DeadlineKept t.phase (result_in t.phase t e now).0.phase
unfolding result_in
result_in-deadline t e now = ground (arith, advance-deadline t now)

react-deadline : (t : Tracker) (e : Event) (now : ℕ) → DeadlineKept t.phase (react t e now).0.phase
react-deadline t (Stream.Event.result is_error person) now = result_in-deadline t is_error now
react-deadline t _ now = advance-deadline t now

event-deadline : (t : Tracker) (e : Event) (now : ℕ) → DeadlineKept t.phase (event t e now).0.phase
unfolding event
event-deadline t e now h =
    let kept = absorb-deadline t e now in
    react-deadline (absorb t e now) e now (h ∙ sym kept.1) ∙ kept.0

set_pending-deadline :
    (t : Tracker) (now : ℕ) → IsSound t → is_idle t.phase ≡ false → set_pending t now ≡ t
unfolding set_pending
set_pending-deadline t now s a = ground arith

marker_seen-deadline :
    (t : Tracker) (now : ℕ)
    → IsSound t
    → is_idle t.phase ≡ false
    → DeadlineKept t.phase (marker_seen t now).0.phase
unfolding marker_seen
marker_seen-deadline t now s a h =
    ground (arith, set_pending-deadline t now s a, advance-deadline t now)

tick-deadline :
    (t : Tracker) (now : ℕ) → is_idle t.phase ≡ false → DeadlineKept t.phase (tick t now).0.phase
unfolding tick
tick-deadline t now a h = ground (arith, advance-deadline t now)

-- While a rotation stays in one wait, its deadline stays what it was: no line, tick, marker or
-- note moves it, so messages that keep coming cannot put a cut off.
pub feed-deadline :
    (t : Tracker) (now : ℕ) (i : Input)
    → IsSound t
    → is_idle t.phase ≡ false
    → rank (feed t now i).0.phase ≡ rank t.phase
    → deadline (feed t now i).0.phase ≡ deadline t.phase
unfolding feed
feed-deadline t now (Input.line e) s a h = event-deadline t e now h
feed-deadline t now Input.clock s a h = tick-deadline t now a h
feed-deadline t now Input.marker s a h = marker_seen-deadline t now s a h
feed-deadline t now Input.marker_gone s a h = unfold cancel in ground arith
feed-deadline t now (Input.note written) s a h = unfold set_note_written in refl
