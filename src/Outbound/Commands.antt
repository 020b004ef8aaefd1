-- ===== src/Outbound/Commands.antt =====
-- `reply`, `react`, `edit` and `typing` of crates/siltad/src/outbound.rs, with the checks of the room.
use silta.Common.{
  String, Bool, List, [], true, false, not, Option, none, some, map, ◌⊎◌, inr, ltb, if◌then◌else◌,
}
use silta.Protocol.Commands.{Reply, React, Edit, Typing, ResultError}
use silta.Config.Routing.{SendDenied, may_send, is_bot}
use silta.Daemon.Typing.{typing_start}
use silta.Text.Lines.{Text, len, is_blank}
use silta.Text.Chunks.{chunk_text}
use silta.Server.Connection.{Shared, Effects, Fail}
use silta.Outbound.Matrix.{RoomView, Kind, Fetched, Matrix}
use silta.Outbound.Sending.{
  Trouble, chunk_bytes, chars, of_chars, fail, reply_config, after_send, send_rest, send_chunks,
  posted, send_one,
}

abbrev pub denied : Option (Option SendDenied) → Bool
denied (some none) = false
denied _ = true

abbrev pub is_optional_event_id : (String → Bool) → Option String → Bool
is_optional_event_id is_event_id none = true
is_optional_event_id is_event_id (some event_id) = is_event_id event_id

-- the cap fits a character, so `chunk_text` does not panic
abbrev pub or_none : Option (List Text) → List Text
or_none none = []
or_none (some chunks) = chunks

module _ {Channel World Content : Type 0} (matrix : Matrix World Content)
    (say : Trouble → String) where
  abbrev pub unchanged : Shared Channel World → Effects World
  unchanged s = record { typing = s.daemon.typing; world = s.world; disk = s.disk }

  abbrev pub in_view : Shared Channel World → String → String → Option RoomView → Option Fail
  in_view s session room_id none = some (fail say ResultError.room_unknown Trouble.not_in_room)
  in_view s session room_id (some room) =
      if not room.joined
      then some (fail say ResultError.room_unknown Trouble.not_joined)
      else elim room.members [
        | none ↦ some (fail say ResultError.send_failed Trouble.no_members)
        | some members ↦
            if denied (may_send s.daemon.routing session room_id members room.shape)
            then some (fail say ResultError.room_not_allowed Trouble.may_not_send)
            else none
      ]

  -- none: the session may post there
  unfoldable pub writable_room : Shared Channel World → String → String → Option Fail
  writable_room s session room_id =
      if not (matrix.is_room_id room_id)
      then some (fail say ResultError.bad_request Trouble.no_room_id)
      else in_view s session room_id (matrix.get_room s.world room_id)

  -- a command on a room that the session may post in
  abbrev pub allowed :
      Shared Channel World
      → Option Fail
      → Effects World × (String ⊎ Fail)
      → Effects World × (String ⊎ Fail)
  allowed s (some failed) result = (unchanged s, inr failed)
  allowed s none result = result

  abbrev pub refused :
      Shared Channel World → ResultError → Trouble → Effects World × (String ⊎ Fail)
  refused s error trouble = (unchanged s, inr (fail say error trouble))

  unfoldable pub do_reply : Shared Channel World → String → Reply → Effects World × (String ⊎ Fail)
  unfolding writable_room after_send send_rest reply_config
  do_reply s session c =
      let text = chars c.text in
      if is_blank text
      then refused s ResultError.bad_request Trouble.is_empty_text
      else if not (is_optional_event_id matrix.is_event_id c.reply_to)
      then refused s ResultError.bad_request Trouble.no_event_id
      else if not (is_optional_event_id matrix.is_event_id c.thread)
      then refused s ResultError.bad_request Trouble.no_event_id
      else allowed s (writable_room s session c.room_id) (
          posted matrix say session c.room_id c.more (
            send_chunks matrix say (unchanged s) c.room_id
              (map of_chars (or_none (chunk_text text chunk_bytes)))
              (reply_config c.reply_to c.thread)))

  unfoldable pub do_react : Shared Channel World → String → React → Effects World × (String ⊎ Fail)
  unfolding writable_room after_send
  do_react s session c =
      if is_blank (chars c.emoji)
      then refused s ResultError.bad_request Trouble.is_empty_emoji
      else if not (matrix.is_event_id c.event_id)
      then refused s ResultError.bad_request Trouble.no_event_id
      else allowed s (writable_room s session c.room_id) (
          posted matrix say session c.room_id c.more
            (send_one matrix say (unchanged s) c.room_id (matrix.annotation c.event_id c.emoji)))

  abbrev pub own : Shared Channel World → Option String → Bool
  own s none = false
  own s (some sender) = is_bot s.daemon.routing sender

  -- may the event be edited?
  abbrev pub unfit : Shared Channel World → Option Fetched → Option Fail
  unfit s none = some (fail say ResultError.not_found Trouble.no_target)
  unfit s (some original) =
      if not (own s original.sender)
      then some (fail say ResultError.not_found Trouble.not_own)
      else elim original.kind [
        | Kind.original_message ↦ none
        | Kind.replacement ↦ some (fail say ResultError.bad_request Trouble.is_edit)
        | Kind.not_message ↦ some (fail say ResultError.bad_request Trouble.is_no_message)
        | Kind.unreadable ↦ some (fail say ResultError.not_found Trouble.is_unreadable)
      ]

  unfoldable pub do_edit : Shared Channel World → String → Edit → Effects World × (String ⊎ Fail)
  unfolding writable_room after_send
  do_edit s session c =
      let text = chars c.text in
      if is_blank text
      then refused s ResultError.bad_request Trouble.is_empty_text
      else if ltb chunk_bytes (len text)
      then refused s ResultError.bad_request Trouble.too_long
      else if not (matrix.is_event_id c.event_id)
      then refused s ResultError.bad_request Trouble.no_event_id
      else allowed s (writable_room s session c.room_id) (
          allowed s (unfit s (matrix.load_or_fetch_event s.world c.room_id c.event_id)) (
            posted matrix say session c.room_id c.more
              (send_one matrix say (unchanged s) c.room_id (matrix.replacement c.event_id c.text))))

  -- `typing`
  abbrev pub shown :
      Shared Channel World → String → String → Option Fail → Effects World × Option Fail
  shown s session room (some failed) = (unchanged s, some failed)
  shown s session room none = (
    record (unchanged s) {
      typing = typing_start s.daemon.typing session room false (matrix.now s.world);
    },
    none,
  )

  unfoldable pub do_typing : Shared Channel World → String → Typing → Effects World × Option Fail
  unfolding writable_room
  do_typing s session c = shown s session c.room_id (writable_room s session c.room_id)
