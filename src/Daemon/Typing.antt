-- ===== src/Daemon/Typing.antt =====
-- The typing indicators of crates/siltad/src/daemon.rs. A task that was spawned runs until it
-- wakes and finds itself cancelled or past the cap; `running` lists those, with the flag `watch`
-- and the cancellation that they share with the table `tasks`. The notices themselves, and what
-- they answer, are Matrix calls outside the model.
use silta.Common.{
  ◌*◌, ℕ, ◌+◌, ◌-◌, Bool, true, false, Option, none, some, List, [], ◌∷◌, String, ltb, ◌==◌, str_eq,
  if◌then◌else◌,
}
use silta.Common.Assoc.{Assoc, lookup, insert, remove}

-- How long the typing indicator is kept alive for one delivery at most.
abbrev pub typing_max : ℕ
typing_max = 600 * 1000

pub record TypingTask : Type 0 where
  pub session : String
  pub generation : ℕ

pub record Running : Type 0 where
  pub room_id : String
  pub session : String
  pub generation : ℕ
  pub started : ℕ
  pub cancelled : Bool
  pub watch : Bool

-- a delivered message that saw no visible action within the cap
pub record Silence : Type 0 where
  pub session : String
  pub room_id : String
  pub delivered_ms : ℕ

pub record Indicators : Type 0 where
  pub tasks : Assoc TypingTask
  pub generation : ℕ
  pub running : List Running

unfoldable pub new : Indicators
new = record { tasks = []; generation = 0; running = [] }

-- a change of the task of a generation
unfoldable pub change : ℕ → (Running → Running) → List Running → List Running
change generation f [] = []
change generation f (run ∷ rest) =
    (if run.generation == generation then f run else run) ∷ change generation f rest

abbrev pub unwatch : Running → Running
unwatch run = record run { watch = false }

abbrev pub cancel : Running → Running
cancel run = record run { cancelled = true }

abbrev pub start_or_keep : Indicators → String → String → Bool → ℕ → Option TypingTask → Indicators
start_or_keep t session room watch now (some task) =
    if watch then t else (record t { running = change task.generation unwatch t.running })
start_or_keep t session room watch now none =
    let generation = t.generation + 1 in
    record {
      tasks = insert room (record { session = session; generation = generation }) t.tasks;
      generation = generation;
      running =
          record {
            room_id = room;
            session = session;
            generation = generation;
            started = now;
            cancelled = false;
            watch = watch;
          }
          ∷ t.running;
    }

unfoldable pub typing_start : Indicators → String → String → Bool → ℕ → Indicators
typing_start t session room watch now = start_or_keep t session room watch now (lookup room t.tasks)

abbrev pub stop : Indicators → String → Option TypingTask → Indicators
stop t room none = t
stop t room (some task) = record t {
  tasks = remove room t.tasks;
  running = change task.generation cancel t.running;
}

unfoldable pub typing_stop : Indicators → String → Indicators
typing_stop t room = stop t room (lookup room t.tasks)

-- the rooms whose task the session's deliveries started
unfoldable pub rooms_of : String → Assoc TypingTask → List String
rooms_of session [] = []
rooms_of session ((room, task) ∷ rest) =
    let later = rooms_of session rest in if str_eq task.session session then room ∷ later else later

unfoldable pub stop_all : List String → Indicators → Indicators
stop_all [] t = t
stop_all (room ∷ rest) t = stop_all rest (typing_stop t room)

unfoldable pub typing_stop_session : Indicators → String → Indicators
typing_stop_session t session = stop_all (rooms_of session t.tasks) t

abbrev pub without : ℕ → List Running → List Running
without generation [] = []
without generation (run ∷ rest) =
    let later = without generation rest in
    if run.generation == generation then later else run ∷ later

abbrev pub clear_own : Assoc TypingTask → String → ℕ → Option TypingTask → Assoc TypingTask
clear_own tasks room generation none = tasks
clear_own tasks room generation (some task) =
    if task.generation == generation then remove room tasks else tasks

-- the end of a task: it clears its place in the table, unless another has it
unfoldable pub finished : Indicators → Running → Indicators
finished t run = record t {
  tasks = clear_own t.tasks run.room_id run.generation (lookup run.room_id t.tasks);
  running = without run.generation t.running;
}

abbrev pub silence_of : Running → Silence
silence_of run = record { session = run.session; room_id = run.room_id; delivered_ms = run.started }

-- A running task wakes: by its timer, or because it was cancelled. Where both are due, either
-- comes first.
unfoldable pub wake : Indicators → Running → Bool → ℕ → Indicators × Option Silence
wake t run by_timer now =
    if by_timer
    then (if ltb typing_max (now - run.started)
        then (finished t run, (if run.watch then some (silence_of run) else none))
        else (t, none))
    else (if run.cancelled then (finished t run, none) else (t, none))
