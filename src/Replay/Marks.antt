-- ===== src/Replay/Marks.antt =====
-- crates/silta/src/replay.rs (`Watermark`, `verdict`) and `Marks` of crates/siltad/src/daemon.rs:
-- the last delivered message of each room. The file the marks are kept in is outside the model.
use silta.Common.{
  ℕ, ◌+◌, ◌-◌, ◌%◌, ◌^◌, Bool, false, ◌&&◌, ◌||◌, Option, none, some, String, ltb, str_eq,
  if◌then◌else◌, ◌==◌,
}
use silta.Common.Assoc.{Assoc, lookup, insert}

pub record Watermark : Type 0 where
  pub ts_ms : ℕ
  pub event_id : String

pub data Verdict : Type 0 where
  deliver : (behind_start_ms : ℕ) → Verdict
  already_delivered : Verdict
  too_old : Verdict

-- at or before the watermark: sent earlier, or the very message
unfoldable pub covered : ℕ → String → Option Watermark → Bool
covered ts event_id none = false
covered ts event_id (some mark) =
    ltb ts mark.ts_ms || (ts == mark.ts_ms && str_eq event_id mark.event_id)

-- `ts_ms + window_ms`, on `u64` in a release build
abbrev pub wrapping_add : ℕ → ℕ → ℕ
wrapping_add a b = (a + b) % 2 ^ 64

unfoldable pub verdict : ℕ → String → Option Watermark → ℕ → ℕ → Verdict
unfolding covered
verdict ts event_id mark started_at window =
    if covered ts event_id mark
    then Verdict.already_delivered
    else if ltb (wrapping_add ts window) started_at
    then Verdict.too_old
    else Verdict.deliver (started_at - ts)

pub record Marks : Type 0 where
  pub map : Assoc Watermark

unfoldable pub get : Marks → String → Option Watermark
get m room = lookup room m.map

abbrev pub newer : Option Watermark → Watermark → Bool
newer none mark = false
newer (some current) mark = ltb mark.ts_ms current.ts_ms

-- Watermarks only move forward
unfoldable pub set : Marks → String → Watermark → Marks
set m room mark =
    if newer (lookup room m.map) mark then m else (record { map = insert room mark m.map })
