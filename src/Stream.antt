-- ===== src/Stream.antt =====
-- crates/silta-session/src/stream.rs: what a line of Claude Code's output means to the
-- supervisor. The reading of the JSON text is not modelled; the events are its result.
use silta.Common.{ℕ, String, Bool, Option, List}

pub data Event : Type 0 where
  -- session_id, version
  init : String → String → Event
  -- subagent, context_tokens, synthetic
  assistant : Bool → Option ℕ → Bool → Event
  -- person
  user : Bool → Event
  -- is_error, person
  result : Bool → Bool → Event
  -- ids
  background_tasks : List String → Event
  -- auto
  compacted : Bool → Event
  compaction_failed : Event
  -- request_id, max_tokens
  context_usage : String → Option ℕ → Event
  -- trigger
  model_fallback : String → Event
  other : Event
