-- ===== src/Supervisor/Methods.antt =====
-- The methods of `Run` in crates/silta-session/src/lib.rs. What is printed is not modelled.
-- The lines sent and the snapshots asked for stand newest first.
use silta.Common.{
  ℕ, ◌+◌, Bool, true, false, Option, none, some, List, [], ◌∷◌, String, leb, if◌then◌else◌, is_some,
}
use silta.Common.Names.{contains}
use silta.Rotation.Types.{Action, Step}
use silta.Supervisor.Contract.{fallback_fatal}
use silta.Supervisor.Types.{
  Config, Emergency, Line, Next, Outcome, Run, Snapshot, exit_model, exit_emergency,
}
use silta.Supervisor.State.{
  write_next, write_marker, write_channel_ready, clear_rotation, watch_handoff,
}

-- `Instant::now()`, and the system's clock in seconds
pub record Clock : Type 0 where
  pub now : ℕ
  pub secs : ℕ

abbrev pub is_one_shot : Option Emergency → Bool
is_one_shot (some (Emergency.one_shot line)) = true
is_one_shot (some (Emergency.prompt line)) = false
is_one_shot none = false

abbrev pub one_shot : Config → Bool
one_shot cfg = is_one_shot cfg.emergency

unfoldable pub send : Run → Line → Run
send r line = if r.stdin then record r { sent = line ∷ r.sent } else r

-- `get_or_insert`
abbrev pub or_at : Option ℕ → ℕ → Option ℕ
or_at none t = some t
or_at (some s) t = some s

unfoldable pub begin_stop : Config → Run → ℕ → Run
begin_stop cfg r now = record r {
  stdin = false;
  stopping = or_at r.stopping (now + cfg.stop_grace);
}

unfoldable pub end : Run → ℕ → ℕ → Run
end r code now = if is_some r.after then r else record r {
  after = some (Outcome.ended code);
  kill = true;
  intro = none;
  stdin = false;
  stopping = or_at r.stopping now;
}

unfoldable pub done : Config → Run → ℕ → Run
unfolding begin_stop
done cfg r now =
    if is_some r.after
    then r
    else begin_stop cfg (record r { after = some (Outcome.ended exit_emergency) }) now

unfoldable pub start : Config → Run → Line → ℕ → Run
unfolding send
start cfg r line now =
    if one_shot cfg
    then (send
        (record r {
          snapshots = Snapshot.before_emergency ∷ r.snapshots;
          deadline = some (now + cfg.limits.compact);
        })
        line)
    else send r line

unfoldable pub window_answer : Config → Run → Option ℕ → Option (Line × ℕ) → Option ℕ → ℕ → Run
unfolding end start
window_answer cfg r none intro max_tokens now = r
window_answer cfg r (some want) none max_tokens now = r
window_answer cfg r (some want) (some (line, limit)) none now = end r exit_model now
window_answer cfg r (some want) (some (line, limit)) (some n) now =
    if leb want n then start cfg r line now else end r exit_model now

unfoldable pub window : Config → Run → Option ℕ → ℕ → Run
window cfg r max_tokens now =
    window_answer cfg (record r { intro = none }) cfg.window r.intro max_tokens now

unfoldable pub fallback : Run → String → ℕ → Run
unfolding end contains
fallback r trigger now = if contains fallback_fatal trigger then end r exit_model now else r

unfoldable pub open_channel : Run → Run
unfolding write_channel_ready
open_channel r =
    if is_some r.after
    then r
    else record r { ready = true; paths = write_channel_ready r.paths r.id }

-- record the next step, and stop claude for the start that reads it
unfoldable pub stop_for : Config → Run → Next → Option ℕ → ℕ → Run
unfolding begin_stop write_next
stop_for cfg r next not_before now =
    begin_stop cfg
      (record r { paths = write_next r.paths next; after = some (Outcome.again not_before) }) now

unfoldable pub finish : Config → Run → Bool → ℕ → Run
unfolding stop_for
finish cfg r handoff now = stop_for cfg r (Next.fresh handoff) none now

-- `step == Step::Wait`
abbrev pub is_wait : Step → Bool
is_wait Step.wait = true
is_wait Step.handoff = false
is_wait Step.compaction = false

-- one round of the loop of `act`
unfoldable pub act_one : Config → Run → Action → Clock → Run
unfolding send finish stop_for write_marker clear_rotation watch_handoff
act_one cfg r (Action.snapshot moment) c = record r { snapshots = Snapshot.at moment ∷ r.snapshots }
act_one cfg r Action.mark_pending c = record r { paths = write_marker r.paths }
act_one cfg r Action.request_handoff c =
    send (record r { watch = some (watch_handoff r.paths c.secs) }) Line.handoff
act_one cfg r Action.await_handoff c = r
act_one cfg r Action.compact c = send r Line.compact
act_one cfg r Action.await_compaction c = r
act_one cfg r Action.compacted c = send (record r { paths = clear_rotation r.paths }) Line.compacted
act_one cfg r (Action.give_up step cut handoff) c = finish cfg r handoff c.now
act_one cfg r (Action.retry step attempts handoff) c =
    stop_for cfg r (Next.retry (is_wait step) attempts handoff) none c.now
act_one cfg r (Action.postpone step attempts handoff) c =
    stop_for cfg r (Next.postponed attempts handoff) (some (c.now + cfg.limits.retry_pause)) c.now

unfoldable pub act : Config → Run → List Action → Clock → Run
unfolding act_one
act cfg r [] c = r
act cfg r (action ∷ actions) c = act cfg (act_one cfg r action c) actions c
