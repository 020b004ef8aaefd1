-- ===== src/Rotation/Types.antt =====
-- crates/silta-session/src/rotation.rs: the knobs, the actions and the tracker's state. An
-- `Instant` is a number on one clock and a `Duration` a difference of two.
use silta.Common.{ℕ, String, Bool, Option, List}

pub record Limits : Type 0 where
  pub enabled : Bool
  pub context_tokens : ℕ
  pub idle : ℕ
  pub quiet : ℕ
  pub handoff : ℕ
  pub compact : ℕ
  pub retry_pause : ℕ

abbrev pub handoff_attempts : ℕ
handoff_attempts = 2

pub data Moment : Type 0 where
  before_handoff after_handoff : Moment

pub data Step : Type 0 where
  wait handoff compaction : Step

pub data Action : Type 0 where
  mark_pending : Action
  snapshot : Moment → Action
  request_handoff : Action
  await_handoff : Action
  compact : Action
  await_compaction : Action
  compacted : Action
  -- step, attempts, handoff
  retry : Step → ℕ → Bool → Action
  postpone : Step → ℕ → Bool → Action
  -- step, cut, handoff
  give_up : Step → Bool → Bool → Action

pub data Phase : Type 0 where
  idle : Phase
  -- deadline
  waiting : ℕ → Phase
  handing_off : ℕ → Phase
  -- deadline, boundary, failed
  compacting : ℕ → Bool → Bool → Phase

pub record Tracker : Type 0 where
  pub limits : Limits
  pub turn : Bool
  pub agents : List String
  pub context : ℕ
  pub last_person : ℕ
  pub pending : Bool
  pub not_before : Option ℕ
  pub attempts : ℕ
  pub handoff : Bool
  pub note_written : Bool
  pub phase : Phase
