-- ===== src/Supervisor/ChannelFile.antt =====
-- The channel-ready file: the plugin connects to the daemon once it exists.
use silta.Common.{
  ℕ, ◌+◌, ◌≡◌, refl, ◌∙◌, true, not, ◌&&◌, ◌||◌, Option, none, some, List, [], ◌∷◌, String, Bool,
  arith, is_some, if◌then◌else◌,
}
use silta.Stream.{Event}
use silta.Rotation.Types.{Action, Tracker}
use silta.Rotation.Tracker as Tracking
use silta.Supervisor.Types.{Config, Line, Paths, Run, Start}
use silta.Supervisor.State.{write_channel_ready, write_marker, write_next, clear_rotation}
use silta.Supervisor.Methods.{
  Clock, one_shot, send, begin_stop, end, done, start, window_answer, window, fallback,
  open_channel, act, act_one, stop_for, finish,
}
use silta.Supervisor.Loop.{
  started, introduced, opened, first_line, observe, watched, emergency_result, track, rotated,
  noted, look, tick_running, on_line, on_tick, on_shutdown,
}
use silta.Supervisor.Ending.{Input, step, steps}
use silta.Supervisor.Channel.{any_answer, opens, step-ready}

-- what the file holds, and whether the directory takes writes
abbrev pub holds : Run → Option String × Bool
holds r = (r.paths.channel_ready, r.paths.writable)

act_one-holds :
    (cfg : Config) (r : Run) (a : Action) (c : Clock) → holds (act_one cfg r a c) ≡ holds r
unfolding act_one send finish stop_for begin_stop write_marker write_next clear_rotation
act_one-holds cfg r a c = ground arith

act-holds :
    (cfg : Config) (r : Run) (actions : List Action) (c : Clock)
    → holds (act cfg r actions c) ≡ holds r
unfolding act
act-holds cfg r [] c = refl
act-holds cfg r (a ∷ actions) c =
    act-holds cfg (act_one cfg r a c) actions c ∙ act_one-holds cfg r a c

rotated-holds :
    (cfg : Config) (r : Run) (t : Tracker × List Action) (c : Clock)
    → holds (rotated cfg r t c) ≡ holds r
unfolding rotated
rotated-holds cfg r (t, actions) c = act-holds cfg (record r { tracker = t }) actions c

window-holds :
    (cfg : Config) (r : Run) (w : Option ℕ) (i : Option (Line × ℕ)) (m : Option ℕ) (now : ℕ)
    → holds (window_answer cfg r w i m now) ≡ holds r
unfolding window_answer end start send
window-holds cfg r none i m now = refl
window-holds cfg r (some want) none m now = refl
window-holds cfg r (some want) (some (l, limit)) none now = ground arith
window-holds cfg r (some want) (some (l, limit)) (some n) now = ground arith

-- what the file holds after an input that may open the channel
abbrev pub file_after : Config → Run → Input → Option String
file_after cfg r i =
    if opens cfg r i && (not r.ready && r.paths.writable) then some r.id else r.paths.channel_ready

observe-holds :
    (cfg : Config) (r : Run) (e : Event) (now : ℕ)
    → holds (observe cfg r e now) ≡ (file_after cfg r (Input.line e), r.paths.writable)
unfolding observe emergency_result fallback open_channel end done begin_stop window
    write_channel_ready clear_rotation
observe-holds cfg r (Event.context_usage request_id max_tokens) now =
    ground (arith, window-holds cfg (record r { intro = none }) cfg.window r.intro max_tokens now)
observe-holds cfg r e now = ground arith

track-holds : (cfg : Config) (r : Run) (e : Event) (c : Clock) → holds (track cfg r e c) ≡ holds r
track-holds cfg r e c = ground (arith, rotated-holds cfg r (Tracking.event (noted r e) e c.now) c)

look-holds : (cfg : Config) (r : Run) (c : Clock) → holds (look cfg r c) ≡ holds r
unfolding look
look-holds cfg r c = ground (arith, rotated-holds cfg r (Tracking.marker_seen r.tracker c.now) c)

tick-holds :
    (cfg : Config) (r : Run) (c : Clock) (i : Option (Line × ℕ))
    → holds (tick_running cfg r c i) ≡ holds r
unfolding tick_running end
tick-holds cfg r c (some (l, deadline)) = ground arith
tick-holds cfg r c none =
    let counted = record r { ticks = r.ticks + 1 } in
    let looked = look cfg counted c in
    ground (
      arith,
      rotated-holds cfg looked (Tracking.tick looked.tracker c.now) c,
      look-holds cfg counted c,
    )

step-holds :
    (cfg : Config) (r : Run) (c : Clock) (i : Input)
    → holds (step cfg r c i) ≡ (file_after cfg r i, r.paths.writable)
unfolding step on_line on_tick on_shutdown begin_stop
step-holds cfg r c (Input.line e) =
    let w = watched cfg r e c in
    ground (arith, observe-holds cfg w e c.now, track-holds cfg (observe cfg w e c.now) e c)
step-holds cfg r c Input.tick = ground (arith, tick-holds cfg r c r.intro)
step-holds cfg r c Input.shutdown = ground arith

-- The channel-ready file is written, with the conversation's id, on a line in which a model answers,
-- in a run that is not an emergency run of one turn, not yet ending, and has not opened the channel
-- before, where the directory takes writes; nothing else in the run writes, changes or removes it.
-- The run counts the channel as open from such a line on, whether or not the file could be written.
pub step-opens :
    (cfg : Config) (r : Run) (c : Clock) (i : Input)
    → ((step cfg r c i).ready ≡ (r.ready || opens cfg r i))
      × ((step cfg r c i).paths.channel_ready ≡ (
          if opens cfg r i && (not r.ready && r.paths.writable)
          then some r.id
          else r.paths.channel_ready))
step-opens cfg r c i = (step-ready cfg r c i, ground (arith, step-holds cfg r c i))

steps-file :
    (cfg : Config) (r : Run) (inputs : List (Clock × Input))
    → is_some (steps cfg r inputs).paths.channel_ready ≡ true
    → (is_some r.paths.channel_ready || (not (one_shot cfg) && any_answer inputs)) ≡ true
unfolding steps
steps-file cfg r [] h = ground arith
steps-file cfg r ((c, i) ∷ inputs) h =
    ground (arith, step-holds cfg r c i, steps-file cfg (step cfg r c i) inputs h)

introduced-holds :
    (cfg : Config) (r : Run) (l : Line) (w : Option ℕ) (now : ℕ)
    → holds (introduced cfg r l w now) ≡ holds r
unfolding introduced start send
introduced-holds cfg r l none now = ground arith
introduced-holds cfg r l (some want) now = ground arith

-- If the channel-ready file is there after any lines, ticks and stops of a run, then a model has
-- answered in this run and the run is not an emergency run of one turn: a file that an earlier run
-- left does not count, since the start removed it. The directory takes writes at the start.
pub opened_by_answer :
    (cfg : Config) (paths : Paths) (s : Start) (not_before : Option ℕ) (c : Clock)
    (inputs : List (Clock × Input))
    → paths.writable ≡ true
    → is_some (steps cfg (started cfg paths s not_before c) inputs).paths.channel_ready ≡ true
    → (not (one_shot cfg) && any_answer inputs) ≡ true
unfolding started
opened_by_answer cfg paths s not_before c inputs free h =
    let first = opened cfg paths s not_before c in
    let line = first_line cfg.emergency s.kind in
    let file = steps-file cfg (started cfg paths s not_before c) inputs h in
    let e : holds (started cfg paths s not_before c) ≡ (none, true) =
      introduced-holds cfg first line cfg.window c.now ∙ ground arith in
    ground (arith, file, e)
