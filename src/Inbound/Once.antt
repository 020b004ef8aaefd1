-- ===== src/Inbound/Once.antt =====
-- What a session has acknowledged does not come to it again.
use silta.Common.{ℕ, ◌<◌, ◌≡◌, ◌⊎◌, String}
use silta.Config.Routing.{Inbound}
use silta.Replay.Marks.{Watermark, Marks}
use silta.Daemon.State.{Daemon}

-- what a mark's message and those before it are
abbrev pub NotAfter : ℕ → String → Watermark → Type 0
NotAfter ts event_id mark = (ts < mark.ts_ms) ⊎ ((ts ≡ mark.ts_ms) × (event_id ≡ mark.event_id))
