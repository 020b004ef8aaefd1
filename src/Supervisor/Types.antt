-- ===== src/Supervisor/Types.antt =====
-- crates/silta-session/src/lib.rs and state.rs: the data of the supervisor. The reasons of its
-- exits are journal text and not modelled; their codes are.
use silta.Common.{ℕ, Bool, Option, List, String}
use silta.Rotation.Types.{Limits, Moment, Tracker}
use silta.Supervisor.Contract.{Contract}

abbrev pub exit_model : ℕ
exit_model = 79

abbrev pub exit_emergency : ℕ
exit_emergency = 80

pub data Emergency : Type 0 where
  one_shot : String → Emergency
  prompt : String → Emergency

pub record Config : Type 0 where
  pub window : Option ℕ
  pub window_wait : ℕ
  pub stop_grace : ℕ
  pub limits : Limits
  pub emergency : Option Emergency

pub data Next : Type 0 where
  normal : Next
  retry : (snapshot : Bool) (attempts : ℕ) (handoff : Bool) → Next
  postponed : (attempts : ℕ) (handoff : Bool) → Next
  fresh : (handoff : Bool) → Next

pub record HandoffWatch : Type 0 where
  pub since_secs : ℕ
  pub note_existed : Bool

-- the state directory: `session-id`, the ids that have a transcript, the rotation marker, the
-- rotation's next step, `channel-ready`, the files of each project's memory directory with their
-- times of change in seconds, and whether the directory takes writes and removals
pub record Paths : Type 0 where
  pub id : Option String
  pub transcripts : List String
  pub marker : Bool
  pub rotation : Next
  pub channel_ready : Option String
  pub memory : List (List (String × ℕ))
  pub writable : Bool

pub data Kind : Type 0 where
  fresh resumed : Kind
  after_rotation : (handoff : Bool) → Kind
  retry : Kind

pub record Start : Type 0 where
  pub id : String
  pub resume : Bool
  pub kind : Kind
  pub attempts : ℕ
  pub handoff : Bool
  pub snapshot : Bool

pub data Outcome : Type 0 where
  exit : (code : ℕ) → Outcome
  ended : (code : ℕ) → Outcome
  again : (not_before : Option ℕ) → Outcome

-- a user line written to claude's stdin: the host lines by what they are
pub data Line : Type 0 where
  intro : Kind → Line
  emergency : String → Line
  handoff compact compacted : Line
  window_request : Line

pub data Snapshot : Type 0 where
  before_emergency : Snapshot
  at : Moment → Snapshot

-- `Run`, with the lines written, the snapshots asked for, and the local variables of `run_once`
-- beside it
pub record Run : Type 0 where
  pub id : String
  pub stdin : Bool
  pub stopping : Option ℕ
  pub after : Option Outcome
  pub kill : Bool
  pub deadline : Option ℕ
  pub tracker : Tracker
  pub watch : Option HandoffWatch
  pub contract : Contract
  pub intro : Option (Line × ℕ)
  pub ready : Bool
  pub paths : Paths
  pub sent : List Line
  pub snapshots : List Snapshot
  pub has_compacted : Bool
  pub compact_failed : Bool
  pub killed : Bool
  pub ticks : ℕ
