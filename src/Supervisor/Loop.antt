-- ===== src/Supervisor/Loop.antt =====
-- `run_once` of crates/silta-session/src/lib.rs: the start of a run, and what its loop does on a
-- line of claude's output, on a tick and on the unit's stop. Claude's process is outside.
use text.Mathlib.Text.{starts_with}
use silta.Common.{
  ℕ, ◌+◌, ◌%◌, Bool, true, false, not, ◌&&◌, Option, none, some, List, [], ◌∷◌, String, leb, ◌==◌,
  if◌then◌else◌, is_some, is_none, str_eq,
}
use silta.Stream.{Event}
use silta.Rotation.Types.{Moment, Tracker, Action}
use silta.Rotation.Tracker as Tracking
use silta.Supervisor.Contract
use silta.Supervisor.Types.{
  Config, Emergency, Kind, Line, Next, Outcome, Paths, Run, Snapshot, Start, HandoffWatch,
  exit_emergency,
}
use silta.Supervisor.State.{
  clear_channel_ready, handoff_written, watch_handoff, clear_rotation, write_next,
}
use silta.Supervisor.Methods.{
  Clock, one_shot, send, begin_stop, end, done, start, window, fallback, open_channel, act,
}

abbrev pub rotate : Config → Bool
rotate cfg = cfg.limits.enabled && not (one_shot cfg)

abbrev pub is_retry : Kind → Bool
is_retry Kind.retry = true
is_retry Kind.fresh = false
is_retry Kind.resumed = false
is_retry (Kind.after_rotation handoff) = false

-- the tracker a run starts with: a retry awaits its handoff, a marker waits for a quiet moment
unfoldable pub seeded : Config → Paths → Start → Option ℕ → ℕ → Tracker
unfolding Tracking.new Tracking.retrying Tracking.pending
seeded cfg paths s not_before now =
    let t = Tracking.new (record cfg.limits { enabled = rotate cfg }) now in
    if is_retry s.kind
    then Tracking.retrying t now s.attempts s.handoff
    else if rotate cfg && paths.marker
    then Tracking.pending t now not_before s.attempts s.handoff
    else t

-- the emergency prompt is only for a plain resume
abbrev pub first_line : Option Emergency → Kind → Line
first_line (some (Emergency.prompt line)) Kind.resumed = Line.emergency line
first_line (some (Emergency.prompt line)) Kind.fresh = Line.intro Kind.fresh
first_line (some (Emergency.prompt line)) (Kind.after_rotation handoff) =
    Line.intro (Kind.after_rotation handoff)
first_line (some (Emergency.prompt line)) Kind.retry = Line.intro Kind.retry
first_line (some (Emergency.one_shot line)) kind = Line.emergency line
first_line none kind = Line.intro kind

-- the first turn waits for the answer of the window check, where a window is configured
unfoldable pub introduced : Config → Run → Line → Option ℕ → ℕ → Run
unfolding send start
introduced cfg r line none now = start cfg r line now
introduced cfg r line (some want) now = record (send r Line.window_request) {
  intro = some (line, now + cfg.window_wait);
}

-- the run before its first line
abbrev pub opened : Config → Paths → Start → Option ℕ → Clock → Run
opened cfg paths s not_before c = record {
  id = s.id;
  stdin = true;
  stopping = none;
  after = none;
  kill = false;
  deadline = none;
  tracker = seeded cfg paths s not_before c.now;
  watch = if is_retry s.kind then some (watch_handoff paths c.secs) else none;
  contract = Contract.fresh;
  intro = none;
  ready = false;
  paths = clear_channel_ready paths;
  sent = [];
  snapshots = if is_retry s.kind && s.snapshot then Snapshot.at Moment.before_handoff ∷ [] else [];
  has_compacted = false;
  compact_failed = false;
  killed = false;
  ticks = 0;
}

unfoldable pub started : Config → Paths → Start → Option ℕ → Clock → Run
started cfg paths s not_before c =
    introduced cfg (opened cfg paths s not_before c) (first_line cfg.emergency s.kind) cfg.window
      c.now

abbrev pub window_request_id : String
window_request_id = "silta-window"

abbrev pub compacts : Option Emergency → Bool
compacts (some (Emergency.one_shot line)) = starts_with line "/compact"
compacts (some (Emergency.prompt line)) = false
compacts none = false

-- the end of a turn of an emergency run, which may have to wait for the compaction
unfoldable pub emergency_result : Config → Run → Bool → ℕ → Run
unfolding done clear_rotation
emergency_result cfg r is_error now =
    if not is_error && (compacts cfg.emergency && (not r.has_compacted && not r.compact_failed))
    then r
    else done cfg (if r.has_compacted then record r { paths = clear_rotation r.paths } else r) now

-- `match &event`
unfoldable pub observe : Config → Run → Event → ℕ → Run
unfolding window fallback open_channel end
observe cfg r (Event.context_usage request_id max_tokens) now =
    if str_eq request_id window_request_id then window cfg r max_tokens now else r
observe cfg r (Event.model_fallback trigger) now = fallback r trigger now
observe cfg r (Event.compacted auto) now =
    if not auto && one_shot cfg then record r { has_compacted = true } else r
observe cfg r Event.compaction_failed now =
    if one_shot cfg then record r { compact_failed = true } else r
observe cfg r (Event.result is_error person) now =
    if one_shot cfg
    then emergency_result cfg r is_error now
    else if not r.ready
    then end r 1 now
    else r
observe cfg r (Event.assistant subagent context_tokens synthetic) now =
    if not (one_shot cfg) && (not subagent && (not synthetic && not r.ready))
    then open_channel r
    else r
observe cfg r _ now = r

abbrev pub is_result : Event → Bool
is_result (Event.result is_error person) = true
is_result _ = false

unfoldable pub written : Paths → Option HandoffWatch → Bool
unfolding handoff_written
written paths none = false
written paths (some w) = handoff_written paths w

abbrev pub noted : Run → Event → Tracker
noted r e =
    if is_result e && Tracking.awaiting_handoff r.tracker
    then Tracking.set_note_written r.tracker (written r.paths r.watch)
    else r.tracker

unfoldable pub rotated : Config → Run → Tracker × List Action → Clock → Run
unfolding act
rotated cfg r (t, actions) c = act cfg (record r { tracker = t }) actions c

-- the kill of an ended run, at the end of every round of the loop
abbrev pub settled : Run → Run
settled r = if r.kill && not r.killed then record r { killed = true } else r

-- the rotation's share of a line: none once the run is ending or before its first turn
abbrev pub track : Config → Run → Event → Clock → Run
track cfg r e c =
    if is_none r.stopping && is_none r.intro
    then rotated cfg r (Tracking.event (noted r e) e c.now) c
    else r

-- the watch on the contract sees every line first
abbrev pub watched : Config → Run → Event → Clock → Run
watched cfg r e c = record r { contract = (Contract.event r.contract e (rotate cfg) c.now).0 }

unfoldable pub on_line : Config → Run → Event → Clock → Run
on_line cfg r e c = settled (track cfg (observe cfg (watched cfg r e c) e c.now) e c)

-- every fifth tick looks for the marker
unfoldable pub look : Config → Run → Clock → Run
unfolding write_next
look cfg r c =
    if rotate cfg && r.ticks % 5 == 0
    then (if r.paths.marker && not r.tracker.pending
        then rotated cfg r (Tracking.marker_seen r.tracker c.now) c
        else (let (t, over) = Tracking.cancel r.tracker in
            if not r.paths.marker && over
            then record r { tracker = t; paths = write_next r.paths Next.normal }
            else r))
    else r

abbrev pub tick_tracker : Config → Run → Clock → Run
tick_tracker cfg r c =
    let ticked = rotated cfg r (Tracking.tick r.tracker c.now) c in
    record ticked { contract = (Contract.tick ticked.contract c.now cfg.limits.quiet).0 }

abbrev pub expired : Option ℕ → ℕ → Bool
expired none now = false
expired (some deadline) now = leb deadline now

unfoldable pub tick_running : Config → Run → Clock → Option (Line × ℕ) → Run
unfolding end
tick_running cfg r c (some (line, deadline)) = if leb deadline c.now then end r 1 c.now else r
tick_running cfg r c none =
    if one_shot cfg
    then (if expired r.deadline c.now then end r exit_emergency c.now else r)
    else tick_tracker cfg (look cfg (record r { ticks = r.ticks + 1 }) c) c

-- a tick on which claude has not exited
unfoldable pub on_tick : Config → Run → Clock → Run
on_tick cfg r c = settled (
    if is_some r.stopping
    then (if expired r.stopping c.now then record r { killed = true } else r)
    else tick_running cfg r c r.intro)

abbrev pub final : Option Outcome → Bool
final none = false
final (some (Outcome.exit code)) = true
final (some (Outcome.ended code)) = true
final (some (Outcome.again not_before)) = false

unfoldable pub on_shutdown : Config → Run → Clock → Run
unfolding begin_stop
on_shutdown cfg r c =
    settled (
      if final r.after
      then r
      else begin_stop cfg (record r { after = some (Outcome.exit 0) }) c.now)
