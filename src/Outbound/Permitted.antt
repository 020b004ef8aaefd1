-- ===== src/Outbound/Permitted.antt =====
-- A command of a session does nothing to a room that the session may not post in.
use silta.Common.{
  ◌≡◌, refl, ◌⊎◌, inl, inr, String, true, false, Option, none, some, List, arith, Bool-cases, ltb,
  Option-cases,
}
use silta.Protocol.Commands.{Reply, React, Edit, Typing}
use silta.Config.Routing.{SendDenied, may_send}
use silta.Server.Connection.{Shared, Effects, Fail}
use silta.Outbound.Matrix.{RoomView, Matrix}
use silta.Text.Lines.{len, is_blank}
use silta.Outbound.Sending.{Trouble, chars, chunk_bytes}
use silta.Outbound.Commands.{
  denied, is_optional_event_id, unchanged, in_view, writable_room, allowed, do_reply, do_react,
  do_edit, do_typing, shown,
}

pub not_denied : (d : Option (Option SendDenied)) → denied d ≡ false → d ≡ some none
not_denied none h = absurd (ground arith)
not_denied (some none) h = refl
not_denied (some (some reason)) h = absurd (ground arith)

module _ {Channel World Content : Type 0} (matrix : Matrix World Content)
    (say : Trouble → String) where
  -- the bot is in the room, and the routing lets the session post there
  abbrev pub Permitted : Shared Channel World → String → String → Type 0
  Permitted s session room_id =
      (room : RoomView) × (members : List String) × (matrix.get_room s.world room_id ≡ some room)
      × (room.joined ≡ true)
      × (room.members ≡ some members)
      × (may_send s.daemon.routing session room_id members room.shape ≡ some none)

  in_view-Permitted :
      (s : Shared Channel World) (session room_id : String) (room : Option RoomView)
      → matrix.get_room s.world room_id ≡ room
      → in_view matrix say s session room_id room ≡ none
      → Permitted s session room_id
  in_view-Permitted s session room_id none e h = absurd (ground arith)
  in_view-Permitted s session room_id (some room) e h = elim (Option-cases room.members) [
    | inl unknown ↦ absurd (ground arith)
    | inr (members, m) ↦
        elim (Bool-cases (denied (may_send s.daemon.routing session room_id members room.shape))) [
          | inl refused ↦ absurd (ground arith)
          | inr granted ↦ (
            room,
            members,
            e,
            ground arith,
            m,
            not_denied (may_send s.daemon.routing session room_id members room.shape) granted,
          )
        ]
  ]

  writable_room-Permitted :
      (s : Shared Channel World) (session room_id : String)
      → writable_room matrix say s session room_id ≡ none
      → Permitted s session room_id
  unfolding writable_room
  writable_room-Permitted s session room_id h = elim (Bool-cases (matrix.is_room_id room_id)) [
    | inl valid ↦
        in_view-Permitted s session room_id (matrix.get_room s.world room_id) refl (ground arith)
    | inr wrong ↦ absurd (ground arith)
  ]

  -- either nothing was done, or the room is one to post in
  unfoldable pub Kept :
      {A : Type 0} → Shared Channel World → String → String → Effects World × A → Type 0
  Kept s session room_id (e, result) = (e ≡ unchanged matrix say s) ⊎ Permitted s session room_id

  allowed-Kept :
      (s : Shared Channel World) (session room_id : String) (checked : Option Fail)
      (result : Effects World × (String ⊎ Fail))
      → writable_room matrix say s session room_id ≡ checked
      → Kept s session room_id (allowed matrix say s checked result)
  unfolding Kept
  allowed-Kept s session room_id (some failed) result e = inl refl
  allowed-Kept s session room_id none result e = inr (writable_room-Permitted s session room_id e)

  shown-Kept :
      (s : Shared Channel World) (session room_id : String) (checked : Option Fail)
      → writable_room matrix say s session room_id ≡ checked
      → Kept s session room_id (shown matrix say s session room_id checked)
  unfolding Kept
  shown-Kept s session room_id (some failed) e = inl refl
  shown-Kept s session room_id none e = inr (writable_room-Permitted s session room_id e)

  do_reply-Kept :
      (s : Shared Channel World) (session : String) (c : Reply)
      → Kept s session c.room_id (do_reply matrix say s session c)
  unfolding do_reply Kept
  do_reply-Kept s session c = elim (Bool-cases (is_blank (chars c.text))) [
    | inl blank ↦ rw blank (inl refl)
    | inr filled ↦ elim (Bool-cases (is_optional_event_id matrix.is_event_id c.reply_to)) [
      | inr odd ↦ rw (filled, odd) (inl refl)
      | inl even ↦ elim (Bool-cases (is_optional_event_id matrix.is_event_id c.thread)) [
        | inr odd ↦ rw (filled, even, odd) (inl refl)
        | inl good ↦
            rw (filled, even, good)
              (allowed-Kept s session c.room_id (writable_room matrix say s session c.room_id) _
                refl)
      ]
    ]
  ]

  do_react-Kept :
      (s : Shared Channel World) (session : String) (c : React)
      → Kept s session c.room_id (do_react matrix say s session c)
  unfolding do_react Kept
  do_react-Kept s session c = elim (Bool-cases (is_blank (chars c.emoji))) [
    | inl blank ↦ rw blank (inl refl)
    | inr filled ↦ elim (Bool-cases (matrix.is_event_id c.event_id)) [
      | inr odd ↦ rw (filled, odd) (inl refl)
      | inl good ↦
          rw (filled, good)
            (allowed-Kept s session c.room_id (writable_room matrix say s session c.room_id) _ refl)
    ]
  ]

  do_edit-Kept :
      (s : Shared Channel World) (session : String) (c : Edit)
      → Kept s session c.room_id (do_edit matrix say s session c)
  unfolding do_edit Kept
  do_edit-Kept s session c = elim (Bool-cases (is_blank (chars c.text))) [
    | inl blank ↦ rw blank (inl refl)
    | inr filled ↦ elim (Bool-cases (ltb chunk_bytes (len (chars c.text)))) [
      | inl long ↦ rw (filled, long) (inl refl)
      | inr short ↦ elim (Bool-cases (matrix.is_event_id c.event_id)) [
        | inr odd ↦ rw (filled, short, odd) (inl refl)
        | inl good ↦
            rw (filled, short, good)
              (allowed-Kept s session c.room_id (writable_room matrix say s session c.room_id) _
                refl)
      ]
    ]
  ]

  -- Whatever a session asks: a reply, a reaction, an edit or a typing notice changes nothing, of
  -- Matrix, of the typing indicators or of the disk, unless the bot is in the room, its members are
  -- known, and the routing lets the session post there.
  pub commands-Kept :
      (s : Shared Channel World) (session : String) (reply : Reply) (react : React) (edit : Edit)
      (typing : Typing)
      → Kept s session reply.room_id (do_reply matrix say s session reply)
        × Kept s session react.room_id (do_react matrix say s session react)
        × Kept s session edit.room_id (do_edit matrix say s session edit)
        × Kept s session typing.room_id (do_typing matrix say s session typing)
  unfolding do_typing
  commands-Kept s session reply react edit typing = (
    do_reply-Kept s session reply,
    do_react-Kept s session react,
    do_edit-Kept s session edit,
    shown-Kept s session typing.room_id (writable_room matrix say s session typing.room_id) refl,
  )
