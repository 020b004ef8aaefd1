-- ===== src/Inbound/Admission.antt =====
-- Who is handed what: the routing and the watermarks together, crates/siltad/src/matrix.rs.
use silta.Common.{
  ℕ, ◌≡◌, refl, ap, ◌∙◌, ◌⊎◌, inl, inr, String, Bool, true, false, not, Option, none, some, List,
  arith, if◌then◌else◌,
}
use silta.Protocol.{Event, RoomKind}
use silta.Config.Types.{PersonConfig}
use silta.Config.Routing.{Inbound, inbound, deliver, drop, is_bot, person_for}
use silta.Config.Privacy.{inbound-deliver}
use silta.Replay.Marks.{Verdict, verdict, get}
use silta.Registry.Table.{Sent}
use silta.Daemon.State.{Daemon}
use silta.Inbound.Content.{Parsed, Body, Media, parse}
use silta.Inbound.Types.{Room, Message, Pending, Missing}
use silta.Inbound.Handlers.{
  Admitted, by_verdict, by_routing, among, admit, deliver_event, hand_on, carried, on_message,
}

-- the event says who sent what in which room
abbrev pub IsOf :
    {Source : Type 0} → Room → Message Source → PersonConfig → RoomKind → Event → Type 0
IsOf room m person kind event =
    (event.person ≡ person.name)
    × (event.role ≡ person.role)
    × (event.sender ≡ m.sender)
    × (event.room_id ≡ room.room_id)
    × (event.room ≡ kind)
    × (event.event_id ≡ m.event_id)

abbrev the_one : Admitted → Option Admitted → Admitted
the_one who none = who
the_one who (some who') = who'

module _ {Channel Source : Type 0} (try_send : Channel → Event → Channel × Sent)
    (remove_fallback : String → String) (guess : String → Option String) (rfc3339_utc : ℕ → String)
    (explain : Media Source → Missing → String) where
  -- the sender is a registered person, the routing gives the message to the session, and no
  -- earlier run delivered it
  abbrev pub Admits :
      Daemon Channel → Room → String → String → ℕ → String → PersonConfig → RoomKind → Type 0
  Admits d room sender event_id ts session person kind =
      (is_bot d.routing sender ≡ false)
      × (person_for d.routing sender ≡ some person)
      × ((members : List String) × (room.members ≡ some members)
          × (inbound d.routing sender room.room_id members room.shape
              ≡ some (deliver session person kind)))
      × ((behind : ℕ) × (verdict ts event_id (get d.marks room.room_id) d.started_at_ms
              d.replay_window_ms
            ≡ Verdict.deliver behind))

  verdict-delivered :
      (v : Verdict) (who who' : Admitted)
      → by_verdict v who ≡ some who'
      → ((behind : ℕ) × (v ≡ Verdict.deliver behind)) × (who ≡ who')
  verdict-delivered (Verdict.deliver behind) who who' h = ((behind, refl), ap (the_one who) h)
  verdict-delivered Verdict.already_delivered who who' h = absurd (ground arith)
  verdict-delivered Verdict.too_old who who' h = absurd (ground arith)

  by_routing-Admits :
      (d : Daemon Channel) (room : Room) (sender event_id : String) (ts : ℕ) (members : List String)
      (found : Option Inbound) (who : Admitted)
      → room.members ≡ some members
      → inbound d.routing sender room.room_id members room.shape ≡ found
      → by_routing try_send remove_fallback guess rfc3339_utc explain d room event_id ts found
        ≡ some who
      → Admits d room sender event_id ts who.0 who.1 who.2
  by_routing-Admits d room sender event_id ts members none who m e h = absurd (ground arith)
  by_routing-Admits d room sender event_id ts members (some (drop reason)) who m e h =
      absurd (ground arith)
  by_routing-Admits d room sender event_id ts members (some (deliver session person kind)) who m e
        h =
      let (fresh, same) =
        verdict-delivered
          (verdict ts event_id (get d.marks room.room_id) d.started_at_ms d.replay_window_ms)
          (session, person, kind) who h in
      let e' : (inbound d.routing sender room.room_id members room.shape
          ≡ some (deliver who.0 who.1 who.2)) =
        e ∙ ap (λ (w : Admitted). some (deliver w.0 w.1 w.2)) same in
      let (human, known, shaped) =
        inbound-deliver d.routing sender room.room_id members room.shape who.0 who.1 who.2 e' in
      (human, known, (members, m, e'), fresh)

  among-Admits :
      (d : Daemon Channel) (room : Room) (sender event_id : String) (ts : ℕ)
      (members : Option (List String)) (who : Admitted)
      → room.members ≡ members
      → among try_send remove_fallback guess rfc3339_utc explain d room sender event_id ts members
        ≡ some who
      → Admits d room sender event_id ts who.0 who.1 who.2
  among-Admits d room sender event_id ts none who m h = absurd (ground arith)
  among-Admits d room sender event_id ts (some members) who m h =
      by_routing-Admits d room sender event_id ts members
        (inbound d.routing sender room.room_id members room.shape) who m refl h

  -- what a message may do: nothing; or, admitted, go to its session as an event of its sender, at
  -- once or once its file is there
  abbrev pub Outcome :
      Daemon Channel → Room → Message Source → ℕ → Daemon Channel × Option (Pending Source) → Type 0
  Outcome d room m now (d', pending) =
      ((d' ≡ d) × (pending ≡ none))
      ⊎ ((session : String) × (person : PersonConfig) × (kind : RoomKind) × (event : Event)
          × (room.joined ≡ true)
          × Admits d room m.sender m.event_id m.origin_server_ts session person kind
          × IsOf room m person kind event
          × (((pending ≡ none)
                × (d'
                    ≡ deliver_event try_send remove_fallback guess rfc3339_utc explain d session
                        event m.origin_server_ts now))
              ⊎ ((d' ≡ d)
                  × ((media : Media Source) × (pending
                        ≡ some (record {
                          session = session;
                          event = event;
                          media = media;
                          ts = m.origin_server_ts;
                        }))))))

  hand_on-Outcome :
      (d : Daemon Channel) (room : Room) (m : Message Source) (parsed : Parsed Source)
      (body : Body Source) (who : Option Admitted) (now : ℕ)
      → room.joined ≡ true
      → admit try_send remove_fallback guess rfc3339_utc explain d room m.sender m.event_id
          m.origin_server_ts
        ≡ who
      → Outcome d room m now
          (hand_on try_send remove_fallback guess rfc3339_utc explain d room m parsed body who now)
  unfolding admit
  hand_on-Outcome d room m parsed body none now j e = inl (refl, refl)
  hand_on-Outcome d room m parsed Body.edit (some who) now j e = inl (refl, refl)
  hand_on-Outcome d room m parsed (Body.other_body _) (some who) now j e = inl (refl, refl)
  hand_on-Outcome d room m parsed (Body.text_body text) (some (session, person, kind)) now j e =
      inr (
        session,
        person,
        kind,
        _,
        j,
        among-Admits d room m.sender m.event_id m.origin_server_ts room.members
            (session, person, kind) refl e,
        (refl, refl, refl, refl, refl, refl),
        inl (refl, refl),
      )
  hand_on-Outcome d room m parsed (Body.media_body media) (some (session, person, kind)) now j e =
      inr (
        session,
        person,
        kind,
        _,
        j,
        among-Admits d room m.sender m.event_id m.origin_server_ts room.members
            (session, person, kind) refl e,
        (refl, refl, refl, refl, refl, refl),
        inr (refl, (media, refl)),
      )

  guarded-Outcome :
      (d : Daemon Channel) (room : Room) (m : Message Source) (now : ℕ) (there kept : Bool)
      (result : Daemon Channel × Option (Pending Source))
      → (there ≡ true → Outcome d room m now result)
      → Outcome d room m now
          (if not there then (d, none) else if not kept then (d, none) else result)
  guarded-Outcome d room m now false kept result f = inl (refl, refl)
  guarded-Outcome d room m now true false result f = inl (refl, refl)
  guarded-Outcome d room m now true true result f = f refl

  -- A message either changes nothing and leaves nothing pending, or: the bot is in the room, the
  -- sender is a registered person other than the bot, the routing gives the message, by the
  -- room's members and shape, to one session, no mark of the room covers it, it is not too old,
  -- and it goes to that session as an event of that person in that room, at once or, if it has a
  -- file, as what is pending.
  pub on_message-Outcome :
      (d : Daemon Channel) (room : Room) (m : Message Source) (now : ℕ)
      → Outcome d room m now
          (on_message try_send remove_fallback guess rfc3339_utc explain d room m now)
  unfolding on_message
  on_message-Outcome d room m now =
      let parsed = parse remove_fallback guess m.relates_to m.msgtype in
      guarded-Outcome d room m now room.joined
        (carried try_send remove_fallback guess rfc3339_utc explain parsed.body) _
        (λ there. hand_on-Outcome d room m parsed parsed.body _ now there refl)
