-- ===== src/Outbound/Readers.antt =====
-- The commands on a room's history, crates/siltad/src/outbound.rs. The regular expressions and the
-- answers of the server are parameters; `messages` answers by how many requests came before.
use silta.Common.{
  ℕ, zero, String, Bool, true, false, not, Option, none, some, List, [], ◌∷◌, ◌⊎◌, ◌-◌, inl, inr,
  if◌then◌else◌,
}
use silta.Protocol.Commands.{
  FetchMessages, FetchMessage, SearchMessages, HistoryAttachment, HistoryMessage, ResultError,
}
use silta.Config.Routing.{may_read}
use silta.Server.Connection.{Shared, Fail, Scan}
use silta.Outbound.Matrix.{RoomView, Matrix}
use silta.Outbound.Sending.{Trouble, fail}
use silta.Outbound.Commands.{denied}
use silta.Outbound.History.{
  history_max_pages, search_page, search_max_pages, clamped, TimelineEvent, Page, Regex,
  history_message, scan_pages,
}

-- the texts of these failures
pub data Unread : Type 0 where
  may_not_read request_failed invalid_regex not_fetched not_a_message : Unread

abbrev pub any_match : Regex → List HistoryAttachment → Bool
any_match regex [] = false
any_match regex (a ∷ rest) = if regex.is_match a.name then true else any_match regex rest

-- the message with its match, none where nothing matches
unfoldable pub matching : Regex → HistoryMessage → Option HistoryMessage
matching regex m = elim (regex.find m.text) [
  | some start ↦ some (record m { match_start = some start })
  | none ↦ if any_match regex m.attachments then some m else none
]

abbrev pub nothing_yet : Scan
nothing_yet = record { messages = []; more = none; scanned = zero; until = none }

abbrev pub guarded : {A : Type 0} → Option Fail → A ⊎ Fail → A ⊎ Fail
guarded (some failed) result = inr failed
guarded none result = result

abbrev pub scanned_or : (Unread → String) → Option Scan → Scan ⊎ Fail
scanned_or tell none = inr (ResultError.send_failed, tell Unread.request_failed)
scanned_or tell (some scan) = inl scan

abbrev pub listed : Scan ⊎ Fail → (List HistoryMessage × Option String) ⊎ Fail
listed (inl scan) = inl (scan.messages, scan.more)
listed (inr failed) = inr failed

module _ {Channel World Content Source : Type 0} (matrix : Matrix World Content)
    (say : Trouble → String) (tell : Unread → String) (remove_fallback : String → String)
    (guess : String → Option String) (rfc3339_utc : ℕ → String)
    (messages : World → String → ℕ → Option String → ℕ → Option (Page Source)) where
  abbrev pub in_reach : Shared Channel World → String → String → Option RoomView → Option Fail
  in_reach s session room_id none = some (fail say ResultError.room_unknown Trouble.not_in_room)
  in_reach s session room_id (some room) =
      if not room.joined
      then some (fail say ResultError.room_unknown Trouble.not_joined)
      else elim room.members [
        | none ↦ some (fail say ResultError.send_failed Trouble.no_members)
        | some members ↦
            if denied (may_read s.daemon.routing session room_id members room.shape)
            then some (ResultError.room_not_allowed, tell Unread.may_not_read)
            else none
      ]

  -- none: the session may read there
  unfoldable pub readable_room : Shared Channel World → String → String → Option Fail
  readable_room s session room_id =
      if not (matrix.is_room_id room_id)
      then some (fail say ResultError.bad_request Trouble.no_room_id)
      else in_reach s session room_id (matrix.get_room s.world room_id)

  -- `scan_history`, with a page more than `follow` at most
  unfoldable pub scan_history :
      Shared Channel World
      → String
      → Option String
      → ℕ
      → ℕ
      → ℕ
      → (HistoryMessage → Option HistoryMessage)
      → Scan ⊎ Fail
  unfolding scan_pages
  scan_history s room_id from page_size wanted max_pages keep = scanned_or tell (
      scan_pages remove_fallback guess rfc3339_utc s.daemon.routing keep (messages s.world room_id)
        page_size wanted (max_pages - 1) zero from nothing_yet)

  unfoldable pub do_fetch_messages :
      Shared Channel World → String → FetchMessages → (List HistoryMessage × Option String) ⊎ Fail
  unfolding readable_room scan_history
  do_fetch_messages s session c =
      let limit = clamped c.limit in
      guarded (readable_room s session c.room_id)
        (listed (scan_history s c.room_id c.from limit limit history_max_pages (λ m. some m)))

  abbrev pub searched : Shared Channel World → String → SearchMessages → Option Regex → Scan ⊎ Fail
  searched s session c none = inr (ResultError.bad_request, tell Unread.invalid_regex)
  searched s session c (some regex) = guarded (readable_room s session c.room_id) (
      scan_history s c.room_id c.from search_page (clamped c.limit) search_max_pages
        (matching regex))

  unfoldable pub do_search_messages :
      (String → Option Regex) → Shared Channel World → String → SearchMessages → Scan ⊎ Fail
  unfolding readable_room scan_history
  do_search_messages build s session c = searched s session c (build c.pattern)

  abbrev pub read_as : Shared Channel World → Option (TimelineEvent Source) → HistoryMessage ⊎ Fail
  read_as s none = inr (ResultError.not_found, tell Unread.not_fetched)
  read_as s (some event) =
      elim (history_message remove_fallback guess rfc3339_utc s.daemon.routing event) [
        | none ↦ inr (ResultError.not_found, tell Unread.not_a_message)
        | some message ↦ inl message
      ]

  unfoldable pub do_fetch_message :
      (World → String → String → Option (TimelineEvent Source))
      → Shared Channel World
      → String
      → FetchMessage
      → HistoryMessage ⊎ Fail
  unfolding readable_room history_message
  do_fetch_message load_or_fetch s session c =
      if not (matrix.is_event_id c.event_id)
      then inr (fail say ResultError.bad_request Trouble.no_event_id)
      else guarded (readable_room s session c.room_id)
          (read_as s (load_or_fetch s.world c.room_id c.event_id))
