-- ===== src/Rotation/Tracker.antt =====
-- crates/silta-session/src/rotation.rs: the methods of `Tracker`. A method that mutates
-- returns the new tracker, with the actions it answers where it has any.
use silta.Common.{
  ℕ, ◌+◌, ◌-◌, ◌%◌, ◌^◌, max, Bool, true, false, not, ◌&&◌, Option, none, some, List, [], ◌∷◌, ltb,
  leb, ◌==◌, if◌then◌else◌, is_empty,
}
use silta.Common.Ordered.{collect}
use silta.Stream
use silta.Stream.{Event}
use silta.Rotation.Types.{
  Limits, Step, Action, Phase, Tracker, before_handoff, after_handoff, handoff_attempts,
}

unfoldable pub new : Limits → ℕ → Tracker
new limits now = record {
  limits = limits;
  turn = true;
  agents = [];
  context = 0;
  last_person = now;
  pending = false;
  not_before = none;
  attempts = 0;
  handoff = false;
  note_written = true;
  phase = Phase.idle;
}

-- `not_before.map_or(now, |t| t.max(now))`
abbrev pub wait_from : Option ℕ → ℕ → ℕ
wait_from none now = now
wait_from (some t) now = max t now

unfoldable pub pending : Tracker → ℕ → Option ℕ → ℕ → Bool → Tracker
pending t now pause attempts handoff = if not t.limits.enabled then t else record t {
  pending = true;
  not_before = pause;
  attempts = attempts;
  handoff = handoff;
  phase = Phase.waiting (wait_from pause now + t.limits.quiet);
}

unfoldable pub retrying : Tracker → ℕ → ℕ → Bool → Tracker
retrying t now attempts handoff = record t {
  pending = true;
  attempts = attempts;
  handoff = handoff;
  phase = Phase.handing_off (now + t.limits.handoff);
}

abbrev pub quiet : Tracker → Bool
quiet t = not t.turn && is_empty t.agents

unfoldable pub awaiting_handoff : Tracker → Bool
awaiting_handoff t = elim t.phase [ Phase.handing_off _ ↦ true | _ ↦ false ]

unfoldable pub set_note_written : Tracker → Bool → Tracker
set_note_written t written = record t { note_written = written }

unfoldable pub done : Tracker → Tracker
done t = record t {
  pending = false;
  not_before = none;
  attempts = 0;
  handoff = false;
  phase = Phase.idle;
}

abbrev pub is_waiting : Phase → Bool
is_waiting (Phase.waiting _) = true
is_waiting _ = false

unfoldable pub cancel : Tracker → Tracker × Bool
unfolding done
cancel t = if not (t.pending && is_waiting t.phase) then (t, false) else (done t, true)

-- `attempts` is a `u32`
abbrev pub spend : ℕ → ℕ
spend n = (n + 1) % 2 ^ 32

unfoldable pub cut : Tracker → Step → Tracker × List Action
cut t step =
    let t' = record t { phase = Phase.idle; attempts = spend t.attempts } in
    if ltb t'.attempts handoff_attempts
    then (t', Action.retry step t'.attempts t'.handoff ∷ [])
    else (t', Action.give_up step true t'.handoff ∷ [])

unfoldable pub failed : Tracker → Step → ℕ → Tracker × List Action
failed t step now =
    let t' = record t { phase = Phase.idle; attempts = spend t.attempts } in
    if ltb t'.attempts handoff_attempts
    then (
      record t' { not_before = some (now + t'.limits.retry_pause) },
      Action.postpone step t'.attempts t'.handoff ∷ [],
    )
    else (t', Action.give_up step false t'.handoff ∷ [])

-- `not_before.is_some_and(|t| now < t)`
abbrev pub paused : Option ℕ → ℕ → Bool
paused none now = false
paused (some t) now = ltb now t

abbrev pub request : Tracker → ℕ → Tracker × List Action
request t now = (
  record t { phase = Phase.handing_off (now + t.limits.handoff) },
  if t.attempts == 0
      then Action.snapshot before_handoff ∷ Action.request_handoff ∷ []
      else Action.request_handoff ∷ [],
)

unfoldable pub advance_in : Phase → Tracker → ℕ → Tracker × List Action
unfolding cut
advance_in Phase.idle t now = (t, [])
advance_in (Phase.waiting deadline) t now =
    if paused t.not_before now
    then (t, [])
    else if quiet t
    then request t now
    else if leb deadline now
    then cut t Step.wait
    else (t, [])
advance_in (Phase.handing_off deadline) t now =
    if leb deadline now then cut t Step.handoff else (t, [])
advance_in (Phase.compacting deadline _ _) t now =
    if leb deadline now then cut t Step.compaction else (t, [])

unfoldable pub advance : Tracker → ℕ → Tracker × List Action
unfolding advance_in
advance t now = advance_in t.phase t now

unfoldable pub set_pending : Tracker → ℕ → Tracker
set_pending t now =
    if not t.pending
    then record t { pending = true; phase = Phase.waiting (now + t.limits.quiet) }
    else t

unfoldable pub marker_seen : Tracker → ℕ → Tracker × List Action
unfolding advance set_pending
marker_seen t now = if not t.limits.enabled then (t, []) else advance (set_pending t now) now

-- the arms of `event` that look at the phase of a turn's end
unfoldable pub result_in : Phase → Tracker → Bool → ℕ → Tracker × List Action
unfolding failed done advance
result_in (Phase.handing_off _) t is_error now =
    if not is_error && not t.note_written
    then (t, Action.await_handoff ∷ [])
    else if is_error
    then failed t Step.handoff now
    else (
      record t { handoff = true; phase = Phase.compacting (now + t.limits.compact) false false },
      Action.snapshot after_handoff ∷ Action.compact ∷ [],
    )
result_in (Phase.compacting _ boundary fault) t is_error now =
    if boundary
    then (done t, Action.compacted ∷ [])
    else if fault
    then failed t Step.compaction now
    else if is_error
    then failed t Step.compaction now
    else (t, Action.await_compaction ∷ [])
result_in _ t is_error now = advance t now

-- `self.context` after an assistant line: a subagent's, a synthetic one and one without
-- usage leave it
abbrev pub observed : Bool → Bool → Option ℕ → ℕ → ℕ
observed false false (some n) context = n
observed _ _ _ context = context

abbrev pub mark_boundary : Bool → Phase → Phase
mark_boundary false (Phase.compacting deadline _ fault) = Phase.compacting deadline true fault
mark_boundary _ phase = phase

abbrev pub mark_failed : Phase → Phase
mark_failed (Phase.compacting deadline boundary _) = Phase.compacting deadline boundary true
mark_failed phase = phase

abbrev pub seen_person : Bool → ℕ → ℕ → ℕ
seen_person person now last = if person then now else last

-- what the arms of `event` record before `advance`, or before the phase of a turn's end is
-- looked at
unfoldable pub absorb : Tracker → Event → ℕ → Tracker
absorb t (Stream.Event.assistant subagent context_tokens synthetic) now = record t {
  turn = true;
  context = observed subagent synthetic context_tokens t.context;
}
absorb t (Stream.Event.user person) now = record t {
  turn = true;
  last_person = seen_person person now t.last_person;
}
absorb t (Stream.Event.result _ person) now = record t {
  turn = false;
  last_person = seen_person person now t.last_person;
}
absorb t (Stream.Event.background_tasks ids) now = record t { agents = collect ids }
absorb t (Stream.Event.compacted auto) now = record t {
  context = 0;
  phase = mark_boundary auto t.phase;
}
absorb t Stream.Event.compaction_failed now = record t { phase = mark_failed t.phase }
absorb t _ now = t

abbrev pub react : Tracker → Event → ℕ → Tracker × List Action
react t (Stream.Event.result is_error _) now = result_in t.phase t is_error now
react t _ now = advance t now

unfoldable pub event : Tracker → Event → ℕ → Tracker × List Action
event t e now = react (absorb t e now) e now

abbrev pub is_idle : Phase → Bool
is_idle Phase.idle = true
is_idle _ = false

-- the condition of `tick`; `duration_since` saturates at zero
abbrev pub trips : Tracker → ℕ → Bool
trips t now =
    t.limits.enabled
    && not t.pending
    && is_idle t.phase
    && not t.turn
    && leb t.limits.context_tokens t.context
    && leb t.limits.idle (now - t.last_person)

unfoldable pub tick : Tracker → ℕ → Tracker × List Action
unfolding advance set_pending
tick t now =
    if trips t now
    then (let (t', actions) = advance (set_pending t now) now in
        (t', Action.mark_pending ∷ actions))
    else advance t now
