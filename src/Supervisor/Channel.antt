-- ===== src/Supervisor/Channel.antt =====
-- When a run counts the channel as open.
use silta.Common.{
  ℕ, ◌+◌, ◌≡◌, refl, ◌∙◌, Bool, false, not, ◌&&◌, ◌||◌, Option, none, some, List, [], ◌∷◌, arith,
  is_none,
}
use silta.Stream.{Event}
use silta.Rotation.Types.{Action, Tracker}
use silta.Rotation.Tracker as Tracking
use silta.Supervisor.Types.{Config, Line, Run}
use silta.Supervisor.Methods.{
  Clock, one_shot, send, begin_stop, end, done, start, window, window_answer, fallback,
  open_channel, act, act_one, stop_for, finish,
}
use silta.Supervisor.Loop.{
  observe, watched, emergency_result, track, rotated, noted, look, tick_running, on_line, on_tick,
  on_shutdown,
}
use silta.Supervisor.Ending.{Input, step}

-- an answer of a model on the main line, not one that Claude Code made up
abbrev pub answers : Input → Bool
answers (Input.line (Event.assistant subagent context_tokens synthetic)) =
    not subagent && not synthetic
answers (Input.line _) = false
answers Input.tick = false
answers Input.shutdown = false

abbrev pub any_answer : List (Clock × Input) → Bool
any_answer [] = false
any_answer ((c, i) ∷ inputs) = answers i || any_answer inputs

act-ready :
    (cfg : Config) (r : Run) (actions : List Action) (c : Clock)
    → (act cfg r actions c).ready ≡ r.ready
unfolding act act_one send finish stop_for begin_stop
act-ready cfg r [] c = refl
act-ready cfg r (a ∷ actions) c = act-ready cfg (act_one cfg r a c) actions c ∙ (ground arith)

rotated-ready :
    (cfg : Config) (r : Run) (t : Tracker × List Action) (c : Clock)
    → (rotated cfg r t c).ready ≡ r.ready
unfolding rotated
rotated-ready cfg r (t, actions) c = act-ready cfg (record r { tracker = t }) actions c

window-ready :
    (cfg : Config) (r : Run) (w : Option ℕ) (i : Option (Line × ℕ)) (m : Option ℕ) (now : ℕ)
    → (window_answer cfg r w i m now).ready ≡ r.ready
unfolding window_answer end start send
window-ready cfg r none i m now = refl
window-ready cfg r (some want) none m now = refl
window-ready cfg r (some want) (some (l, limit)) none now = ground arith
window-ready cfg r (some want) (some (l, limit)) (some n) now = ground arith

-- when a line opens the channel
abbrev pub opens : Config → Run → Input → Bool
opens cfg r i = not (one_shot cfg) && (answers i && is_none r.after)

observe-ready :
    (cfg : Config) (r : Run) (e : Event) (now : ℕ)
    → (observe cfg r e now).ready ≡ (r.ready || opens cfg r (Input.line e))
unfolding observe emergency_result fallback open_channel end done begin_stop window
observe-ready cfg r (Event.context_usage request_id max_tokens) now =
    ground (arith, window-ready cfg (record r { intro = none }) cfg.window r.intro max_tokens now)
observe-ready cfg r e now = ground arith

track-ready : (cfg : Config) (r : Run) (e : Event) (c : Clock) → (track cfg r e c).ready ≡ r.ready
track-ready cfg r e c = ground (arith, rotated-ready cfg r (Tracking.event (noted r e) e c.now) c)

look-ready : (cfg : Config) (r : Run) (c : Clock) → (look cfg r c).ready ≡ r.ready
unfolding look
look-ready cfg r c = ground (arith, rotated-ready cfg r (Tracking.marker_seen r.tracker c.now) c)

tick-ready :
    (cfg : Config) (r : Run) (c : Clock) (i : Option (Line × ℕ))
    → (tick_running cfg r c i).ready ≡ r.ready
unfolding tick_running end
tick-ready cfg r c (some (l, deadline)) = ground arith
tick-ready cfg r c none =
    let counted = record r { ticks = r.ticks + 1 } in
    let looked = look cfg counted c in
    ground (
      arith,
      rotated-ready cfg looked (Tracking.tick looked.tracker c.now) c,
      look-ready cfg counted c,
    )

pub step-ready :
    (cfg : Config) (r : Run) (c : Clock) (i : Input)
    → (step cfg r c i).ready ≡ (r.ready || opens cfg r i)
unfolding step on_line on_tick on_shutdown begin_stop
step-ready cfg r c (Input.line e) =
    let w = watched cfg r e c in
    ground (arith, observe-ready cfg w e c.now, track-ready cfg (observe cfg w e c.now) e c)
step-ready cfg r c Input.tick = ground (arith, tick-ready cfg r c r.intro)
step-ready cfg r c Input.shutdown = ground arith
