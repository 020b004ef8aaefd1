-- ===== src/Examples/Starts.antt =====
-- The supervisor's theorems on one configuration and one saved conversation.
use silta.Common.{
  ℕ, ◌≡◌, refl, true, false, not, ◌&&◌, ◌||◌, is_some, if◌then◌else◌, none, some, List, [], ◌∷◌,
}
use silta.Common.Names.{contains}
use silta.Stream.{Event}
use silta.Rotation.Types.{Action, Step}
use silta.Supervisor.Types.{Config, Kind, Next, Outcome, Paths, Run, Start}
use silta.Supervisor.State.{transcript}
use silta.Supervisor.Plan.{plan_start, resumed}
use silta.Supervisor.Methods.{Clock, act_one, one_shot}
use silta.Rotation.Tracker.{event, advance, absorb, result_in, awaiting_handoff, tick}
use silta.Supervisor.Loop.{
  opened, started, seeded, on_tick, on_shutdown, on_line, observe, introduced, rotated,
  tick_running, look,
}
use silta.Supervisor.Ending.{Input, IsSound, step, steps, started-IsSound}
use silta.Supervisor.Frozen.{Frozen, steps-Frozen}
use silta.Supervisor.Channel.{any_answer, opens}
use silta.Supervisor.ChannelFile.{step-opens, opened_by_answer}
use silta.Supervisor.Restart.{Resumes, act_one-plan_start, give_up-plan_start, seeded-next_start}

abbrev config : Config
config = record {
  window = none;
  window_wait = 60;
  stop_grace = 30;
  limits = record {
    enabled = true;
    context_tokens = 800;
    idle = 60;
    quiet = 1800;
    handoff = 600;
    compact = 600;
    retry_pause = 300;
  };
  emergency = none;
}

abbrev paths : Paths
paths = record {
  id = some "id-1";
  transcripts = "id-1" ∷ [];
  marker = true;
  rotation = Next.normal;
  channel_ready = none;
  memory = [];
  writable = true;
}

abbrev plain : Start
plain = resumed "id-1" Kind.resumed 0 false false

abbrev at : ℕ → Clock
at now = record { now = now; secs = now }

abbrev running : Run
running = opened config paths plain none (at 0)

abbrev inputs : List (Clock × Input)
inputs =
    (at 1, Input.line (Event.assistant false (some 900) false))
    ∷ (at 2, Input.line (Event.result false false))
    ∷ (at 3, Input.tick)
    ∷ (at 4, Input.shutdown)
    ∷ (at 40, Input.tick)
    ∷ []

resumes : Resumes running
unfolding transcript contains
resumes = (refl, refl, refl, refl)

act_one-plan_start_example :
    plan_start (act_one config running (Action.retry Step.wait 1 false) (at 5)).paths none ≡ (
      (act_one config running (Action.retry Step.wait 1 false) (at 5)).paths,
      some (resumed "id-1" Kind.retry 1 false true),
    )
act_one-plan_start_example =
    act_one-plan_start config running (Action.retry Step.wait 1 false) (at 5) none
      (resumed "id-1" Kind.retry 1 false true) refl resumes

give_up-plan_start_example :
    plan_start
      (act_one config running (Action.give_up Step.handoff true false) (at 5)).paths
      (some "id-2")
    ≡ (
      record paths { id = some "id-2"; marker = false; rotation = Next.normal },
      some (record {
        id = "id-2";
        resume = false;
        kind = Kind.after_rotation false;
        attempts = 0;
        handoff = false;
        snapshot = false;
      }),
    )
give_up-plan_start_example =
    give_up-plan_start config running Step.handoff true false (at 5) "id-2" refl

seeded-next_start_example :
    ((seeded config paths (resumed "id-1" Kind.retry 1 true true) none 9).pending ≡ true)
    × ((seeded config paths (resumed "id-1" Kind.retry 1 true true) none 9).attempts ≡ 1)
    × ((seeded config paths (resumed "id-1" Kind.retry 1 true true) none 9).handoff ≡ true)
seeded-next_start_example =
    seeded-next_start config paths "id-1" (Action.retry Step.wait 1 true)
      (resumed "id-1" Kind.retry 1 true true) 1 true none 9 refl refl refl refl

started-IsSound_example : IsSound (steps config (started config paths plain none (at 0)) inputs)
started-IsSound_example = started-IsSound config paths plain none (at 0) inputs

abbrev stopping : Run
stopping = record running { stdin = false; stopping = some 30; after = some (Outcome.ended 79) }

steps-Frozen_example : Frozen stopping (steps config stopping inputs)
steps-Frozen_example = steps-Frozen config stopping inputs (refl, refl) refl

abbrev answer : Input
answer = Input.line (Event.assistant false (some 900) false)

step-opens_example :
    ((step config running (at 1) answer).ready ≡ (running.ready || opens config running answer))
    × ((step config running (at 1) answer).paths.channel_ready ≡ (
        if opens config running answer && (not running.ready && running.paths.writable)
        then some running.id
        else running.paths.channel_ready))
step-opens_example = step-opens config running (at 1) answer

abbrev stale : Paths
stale = record paths { channel_ready = some "id-0" }

file_after_inputs :
    is_some (steps config (started config stale plain none (at 0)) inputs).paths.channel_ready
    ≡ true
unfolding started steps step on_tick on_shutdown on_line observe introduced rotated event advance
    absorb seeded result_in awaiting_handoff tick_running tick look
file_after_inputs = refl

opened_by_answer_example : (not (one_shot config) && any_answer inputs) ≡ true
opened_by_answer_example =
    opened_by_answer config stale plain none (at 0) inputs refl file_after_inputs
