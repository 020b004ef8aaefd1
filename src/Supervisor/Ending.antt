-- ===== src/Supervisor/Ending.antt =====
-- The life of a run: what `run_once` does on any sequence of lines, ticks and stops, and what an
-- ending run no longer does.
use silta.Common.{
  ℕ, ◌+◌, ◌≡◌, refl, ◌&&◌, Option, none, some, List, [], ◌∷◌, arith, is_some, is_none, inl, inr,
  Bool-cases,
}
use silta.Stream.{Event}
use silta.Rotation.Types.{Action, Tracker}
use silta.Rotation.Tracker as Tracking
use silta.Supervisor.Types.{Config, Line, Paths, Run, Start}
use silta.Supervisor.Methods.{
  Clock, send, begin_stop, end, done, start, window, window_answer, fallback, open_channel, act,
  act_one, stop_for, finish,
}
use silta.Supervisor.Loop.{
  started, opened, first_line, introduced, watched, noted, observe, emergency_result, track,
  rotated, settled, look, tick_running, on_line, on_tick, on_shutdown,
}

pub data Input : Type 0 where
  line : Event → Input
  tick : Input
  shutdown : Input

unfoldable pub step : Config → Run → Clock → Input → Run
step cfg r c (Input.line e) = on_line cfg r e c
step cfg r c Input.tick = on_tick cfg r c
step cfg r c Input.shutdown = on_shutdown cfg r c

unfoldable pub steps : Config → Run → List (Clock × Input) → Run
steps cfg r [] = r
steps cfg r ((c, i) ∷ inputs) = steps cfg (step cfg r c i) inputs

-- a run has an outcome exactly if its stop is under way, and then claude's stdin is closed
abbrev pub IsSound : Run → Type 0
IsSound r = (is_some r.after ≡ is_some r.stopping) × (r.stdin ≡ is_none r.stopping)

act_one-IsSound :
    (cfg : Config) (r : Run) (a : Action) (c : Clock) → IsSound r → IsSound (act_one cfg r a c)
unfolding act_one send finish stop_for begin_stop
act_one-IsSound cfg r a c h = ground arith

act-IsSound :
    (cfg : Config) (r : Run) (actions : List Action) (c : Clock)
    → IsSound r
    → IsSound (act cfg r actions c)
unfolding act
act-IsSound cfg r [] c h = h
act-IsSound cfg r (a ∷ actions) c h =
    act-IsSound cfg (act_one cfg r a c) actions c (act_one-IsSound cfg r a c h)

start-IsSound :
    (cfg : Config) (r : Run) (l : Line) (now : ℕ) → IsSound r → IsSound (start cfg r l now)
unfolding start send
start-IsSound cfg r l now h = ground arith

window_answer-IsSound :
    (cfg : Config) (r : Run) (w : Option ℕ) (i : Option (Line × ℕ)) (m : Option ℕ) (now : ℕ)
    → IsSound r
    → IsSound (window_answer cfg r w i m now)
unfolding window_answer end
window_answer-IsSound cfg r none i m now h = h
window_answer-IsSound cfg r (some want) none m now h = h
window_answer-IsSound cfg r (some want) (some (l, limit)) none now h = ground arith
window_answer-IsSound cfg r (some want) (some (l, limit)) (some n) now h =
    ground (arith, start-IsSound cfg r l now h)

window-IsSound :
    (cfg : Config) (r : Run) (m : Option ℕ) (now : ℕ) → IsSound r → IsSound (window cfg r m now)
unfolding window
window-IsSound cfg r m now h =
    window_answer-IsSound cfg (record r { intro = none }) cfg.window r.intro m now h

observe-IsSound :
    (cfg : Config) (r : Run) (e : Event) (now : ℕ) → IsSound r → IsSound (observe cfg r e now)
unfolding observe emergency_result fallback open_channel end done begin_stop
observe-IsSound cfg r (Event.context_usage request_id max_tokens) now h =
    ground (arith, window-IsSound cfg r max_tokens now h)
observe-IsSound cfg r e now h = ground arith

rotated-IsSound :
    (cfg : Config) (r : Run) (t : Tracker × List Action) (c : Clock)
    → IsSound r
    → IsSound (rotated cfg r t c)
unfolding rotated
rotated-IsSound cfg r (t, actions) c h = act-IsSound cfg (record r { tracker = t }) actions c h

settled-IsSound : (r : Run) → IsSound r → IsSound (settled r)
settled-IsSound r h = ground arith

track-IsSound :
    (cfg : Config) (r : Run) (e : Event) (c : Clock) → IsSound r → IsSound (track cfg r e c)
track-IsSound cfg r e c h = elim (Bool-cases (is_none r.stopping && is_none r.intro)) [
  | inl t ↦ rw t (rotated-IsSound cfg r (Tracking.event (noted r e) e c.now) c h)
  | inr f ↦ rw f h
]

on_line-IsSound :
    (cfg : Config) (r : Run) (e : Event) (c : Clock) → IsSound r → IsSound (on_line cfg r e c)
unfolding on_line
on_line-IsSound cfg r e c h =
    let w = watched cfg r e c in
    settled-IsSound (track cfg (observe cfg w e c.now) e c)
      (track-IsSound cfg (observe cfg w e c.now) e c (observe-IsSound cfg w e c.now h))

look-IsSound : (cfg : Config) (r : Run) (c : Clock) → IsSound r → IsSound (look cfg r c)
unfolding look
look-IsSound cfg r c h =
    ground (arith, rotated-IsSound cfg r (Tracking.marker_seen r.tracker c.now) c h)

tick_running-IsSound :
    (cfg : Config) (r : Run) (c : Clock) (i : Option (Line × ℕ))
    → IsSound r
    → IsSound (tick_running cfg r c i)
unfolding tick_running end
tick_running-IsSound cfg r c (some (l, deadline)) h = ground arith
tick_running-IsSound cfg r c none h =
    let looked = look cfg (record r { ticks = r.ticks + 1 }) c in
    ground (
      arith,
      rotated-IsSound cfg looked (Tracking.tick looked.tracker c.now) c
          (look-IsSound cfg (record r { ticks = r.ticks + 1 }) c h),
    )

pub step-IsSound :
    (cfg : Config) (r : Run) (c : Clock) (i : Input) → IsSound r → IsSound (step cfg r c i)
unfolding step on_tick on_shutdown begin_stop
step-IsSound cfg r c (Input.line e) h = on_line-IsSound cfg r e c h
step-IsSound cfg r c Input.tick h = ground (arith, tick_running-IsSound cfg r c r.intro h)
step-IsSound cfg r c Input.shutdown h = ground arith

steps-IsSound :
    (cfg : Config) (r : Run) (inputs : List (Clock × Input))
    → IsSound r
    → IsSound (steps cfg r inputs)
unfolding steps
steps-IsSound cfg r [] h = h
steps-IsSound cfg r ((c, i) ∷ inputs) h =
    steps-IsSound cfg (step cfg r c i) inputs (step-IsSound cfg r c i h)

introduced-IsSound :
    (cfg : Config) (r : Run) (l : Line) (w : Option ℕ) (now : ℕ)
    → IsSound r
    → IsSound (introduced cfg r l w now)
unfolding introduced send
introduced-IsSound cfg r l none now h = start-IsSound cfg r l now h
introduced-IsSound cfg r l (some want) now h = ground arith

-- Whatever claude writes, and whenever the ticks and the unit's stop come: a run has an outcome
-- exactly if its stop is under way, and exactly then claude's stdin is closed.
pub started-IsSound :
    (cfg : Config) (paths : Paths) (s : Start) (not_before : Option ℕ) (c : Clock)
    (inputs : List (Clock × Input))
    → IsSound (steps cfg (started cfg paths s not_before c) inputs)
unfolding started
started-IsSound cfg paths s not_before c inputs =
    steps-IsSound cfg (started cfg paths s not_before c) inputs (
      introduced-IsSound cfg (opened cfg paths s not_before c) (first_line cfg.emergency s.kind)
        cfg.window c.now (refl, refl))
