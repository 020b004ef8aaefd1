-- ===== src/Supervisor/State.antt =====
-- crates/silta-session/src/state.rs: what the supervisor reads and writes in the state
-- directory. A write answers whether it succeeded, with the directory after it.
use silta.Common.{
  ℕ, Bool, true, false, not, ◌&&◌, ◌||◌, none, some, List, [], ◌∷◌, String, str_eq, leb,
  if◌then◌else◌,
}
use silta.Common.Names.{contains}
use silta.Supervisor.Types.{Next, HandoffWatch, Paths}

unfoldable pub transcript : Paths → String → Bool
transcript p id = contains p.transcripts id

unfoldable pub write_id : Paths → String → Paths × Bool
write_id p id = if p.writable then (record p { id = some id }, true) else (p, false)

unfoldable pub drop_id : Paths → Paths
drop_id p = if p.writable then record p { id = none } else p

abbrev pub clear_channel_ready : Paths → Paths
clear_channel_ready p = if p.writable then record p { channel_ready = none } else p

unfoldable pub write_channel_ready : Paths → String → Paths
write_channel_ready p id = if p.writable then record p { channel_ready = some id } else p

unfoldable pub write_marker : Paths → Paths
write_marker p = if p.writable then record p { marker = true } else p

-- `Next::Normal` removes the file, which reads as `Next::Normal`
unfoldable pub write_next : Paths → Next → Paths
write_next p next = if p.writable then record p { rotation = next } else p

unfoldable pub clear_rotation : Paths → Paths
clear_rotation p = if p.writable then record p { marker = false; rotation = Next.normal } else p

abbrev pub handoff_note : String
handoff_note = "handoff.md"

abbrev pub has_note : List (String × ℕ) → Bool
has_note [] = false
has_note ((name, mtime) ∷ files) = str_eq name handoff_note || has_note files

abbrev pub any_note : List (List (String × ℕ)) → Bool
any_note [] = false
any_note (dir ∷ dirs) = has_note dir || any_note dirs

unfoldable pub watch_handoff : Paths → ℕ → HandoffWatch
watch_handoff p now_secs = record { since_secs = now_secs; note_existed = any_note p.memory }

-- a file changed since the request: the note only, if it was there
abbrev pub rewritten : HandoffWatch → List (String × ℕ) → Bool
rewritten w [] = false
rewritten w ((name, mtime) ∷ files) =
    ((not w.note_existed || str_eq name handoff_note) && leb w.since_secs mtime)
    || rewritten w files

abbrev pub any_rewritten : HandoffWatch → List (List (String × ℕ)) → Bool
any_rewritten w [] = false
any_rewritten w (dir ∷ dirs) = rewritten w dir || any_rewritten w dirs

unfoldable pub handoff_written : Paths → HandoffWatch → Bool
handoff_written p w = any_rewritten w p.memory
