-- ===== src/Outbound/Sending.antt =====
-- The sending of crates/siltad/src/outbound.rs: relations, chunks and the typing indicator. The texts
-- of failures are a parameter, by their trouble.
use Prim.Native.String.{String as Str}
use silta.Common.{
  ℕ, ◌*◌, String, Bool, true, false, Option, none, some, List, [], ◌∷◌, ◌⊎◌, inl, inr,
  if◌then◌else◌,
}
use silta.Protocol.Commands.{ResultError}
use silta.Daemon.Typing.{typing_start, typing_stop}
use silta.Text.Lines.{Text}
use silta.Server.Connection.{Effects, Fail}
use silta.Outbound.Matrix.{EnforceThread, ReplyConfig, ReplyError, Matrix}

abbrev pub chunk_bytes : ℕ
chunk_bytes = 8 * 1024

-- the characters of a text, and back
abbrev pub chars : String → Text
chars Str.[] = []
chars (Str.◌∷◌ c s) = c ∷ chars s

abbrev pub of_chars : Text → String
of_chars [] = Str.[]
of_chars (c ∷ s) = Str.◌∷◌ c (of_chars s)

pub data Trouble : Type 0 where
  no_room_id not_in_room not_joined no_members may_not_send no_event_id : Trouble
  is_empty_text is_empty_emoji too_long not_sent no_quoted no_reply no_target not_own : Trouble
  is_edit is_no_message is_unreadable : Trouble

-- What a quote and a thread mean for the relation of an outgoing message.
unfoldable pub reply_config : Option String → Option String → Option ReplyConfig
reply_config (some quoted) (some _) =
    some (record { event_id = quoted; enforce_thread = EnforceThread.threaded_reply })
reply_config (some quoted) none =
    some (record { event_id = quoted; enforce_thread = EnforceThread.maybe_threaded })
reply_config none (some root) =
    some (record { event_id = root; enforce_thread = EnforceThread.threaded })
reply_config none none = none

-- the relation of a chunk after the first
abbrev pub next_config : Bool → String → Option ReplyConfig
next_config in_thread last =
    if in_thread
    then some (record { event_id = last; enforce_thread = EnforceThread.maybe_threaded })
    else none

abbrev pub fail : (Trouble → String) → ResultError → Trouble → Fail
fail say error trouble = (error, say trouble)

module _ {World Content : Type 0} (matrix : Matrix World Content) (say : Trouble → String) where
  unfoldable pub stop_typing : Effects World → String → Effects World
  stop_typing e room = record e {
    typing = typing_stop e.typing room;
    world = matrix.typing_notice e.world room false;
  }

  unfoldable pub after_send : Effects World → String → String → Bool → Effects World
  unfolding stop_typing
  after_send e session room more =
      let shown = matrix.typing_notice (matrix.typing_notice e.world room false) room true in
      let on : Effects World = record e {
        typing = typing_start e.typing session room false (matrix.now e.world);
        world = shown;
      } in
      if more then on else stop_typing e room

  abbrev pub related : Content ⊎ ReplyError → Content ⊎ Fail
  related (inl content) = inl content
  related (inr ReplyError.fetch) = inr (fail say ResultError.not_found Trouble.no_quoted)
  related (inr ReplyError.other) = inr (fail say ResultError.bad_request Trouble.no_reply)

  unfoldable pub with_relation : World → String → Content → Option ReplyConfig → Content ⊎ Fail
  with_relation world room content none = inl content
  with_relation world room content (some config) =
      related (matrix.make_reply_event world room content config)

  -- the chunks after the first; the id of the last event sent
  unfoldable pub send_rest :
      Effects World → String → List String → Bool → String → Effects World × (String ⊎ Fail)
  unfolding stop_typing with_relation
  send_rest e room [] in_thread last = (e, inl last)
  send_rest e room (chunk ∷ chunks) in_thread last =
      elim (with_relation e.world room (matrix.text_markdown chunk) (next_config in_thread last)) [
        | inr failed ↦ (e, inr failed)
        | inl content ↦
            let (world, sent) = matrix.send e.world room content in
            let e' : Effects World = record e { world = world } in
            elim sent [
              | none ↦
                  (stop_typing e' room, inr (fail say ResultError.send_failed Trouble.not_sent))
              | some event_id ↦ send_rest e' room chunks in_thread event_id
            ]
      ]

  abbrev pub send_chunks :
      Effects World → String → List String → Option ReplyConfig → Effects World × (String ⊎ Fail)
  send_chunks e room [] config = (e, inr (fail say ResultError.bad_request Trouble.is_empty_text))
  send_chunks e room (chunk ∷ chunks) config =
      elim (with_relation e.world room (matrix.text_markdown chunk) config) [
        | inr failed ↦ (e, inr failed)
        | inl content ↦
            let (world, sent) = matrix.send e.world room content in
            let e' : Effects World = record e { world = world } in
            elim sent [
              | none ↦
                  (stop_typing e' room, inr (fail say ResultError.send_failed Trouble.not_sent))
              | some event_id ↦ send_rest e' room chunks (matrix.in_thread content) event_id
            ]
      ]

  -- after a success the indicator ends, or goes on
  abbrev pub posted :
      String → String → Bool → Effects World × (String ⊎ Fail) → Effects World × (String ⊎ Fail)
  posted session room more (e, inl event_id) = (after_send e session room more, inl event_id)
  posted session room more (e, inr failed) = (e, inr failed)

  abbrev pub send_one : Effects World → String → Content → Effects World × (String ⊎ Fail)
  send_one e room content =
      let (world, sent) = matrix.send e.world room content in
      let e' : Effects World = record e { world = world } in
      elim sent [
        | none ↦ (e', inr (fail say ResultError.send_failed Trouble.not_sent))
        | some event_id ↦ (e', inl event_id)
      ]
