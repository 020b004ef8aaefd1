-- ===== src/Inbound/Handlers.antt =====
-- crates/siltad/src/matrix.rs: the handlers of messages, reactions and invites. A room is what
-- the handlers ask the client about it. The texts of times and of the notes about attachments are
-- parameters. A message with a file is delivered by a task of its own, once the file is there or
-- not: `on_message` leaves it pending.
use Prim.Native.String.{◌++◌ as push_str}
use silta.Common.{
  ℕ, String, Bool, true, false, not, Option, none, some, List, [], ◌∷◌, ◌++◌, length, ltb, str_eq,
  if◌then◌else◌,
}
use silta.Common.Assoc.{insert}
use silta.Protocol.{Event, EventKind, RoomKind, Attachment}
use silta.Config.Types.{PersonConfig}
use silta.Config.Routing.{Inbound, inbound, deliver, drop, is_bot}
use silta.Replay.Marks.{Verdict, verdict, get}
use silta.Registry.Table.{Sent, dispatch}
use silta.Daemon.State.{Daemon}
use silta.Transfer.Names.{safe_id}
use silta.Inbound.Content.{Media, Body, Parsed, parse}
use silta.Inbound.Types.{Room, Message, Reaction, Pending, Fetched, Download, Missing}

-- `spool::download`
unfoldable pub download : ℕ → Fetched → Download
download max (Fetched.fetched content) =
    if ltb max (length content)
    then Download.too_large (length content)
    else Download.downloaded content
download max Fetched.failed = Download.not_downloaded
download max Fetched.timed_out = Download.late

abbrev pub Admitted : Type 0
Admitted = String × PersonConfig × RoomKind

abbrev pub by_verdict : Verdict → Admitted → Option Admitted
by_verdict Verdict.already_delivered who = none
by_verdict Verdict.too_old who = none
by_verdict (Verdict.deliver behind) who = some who

-- the end of a connected registry's channel, see `Registry`
module _ {Channel Source : Type 0} (try_send : Channel → Event → Channel × Sent)
    (remove_fallback : String → String) (guess : String → Option String) (rfc3339_utc : ℕ → String)
    (explain : Media Source → Missing → String) where
  -- the verdict on what is routed to a session; an index out of range would panic and drop it
  abbrev pub by_routing : Daemon Channel → Room → String → ℕ → Option Inbound → Option Admitted
  by_routing d room event_id ts none = none
  by_routing d room event_id ts (some (drop reason)) = none
  by_routing d room event_id ts (some (deliver session person kind)) =
      by_verdict (verdict ts event_id (get d.marks room.room_id) d.started_at_ms d.replay_window_ms)
        (session, person, kind)

  abbrev pub among :
      Daemon Channel → Room → String → String → ℕ → Option (List String) → Option Admitted
  among d room sender event_id ts none = none
  among d room sender event_id ts (some members) =
      by_routing d room event_id ts (inbound d.routing sender room.room_id members room.shape)

  unfoldable pub admit : Daemon Channel → Room → String → String → ℕ → Option Admitted
  admit d room sender event_id ts = among d room sender event_id ts room.members

  unfoldable pub deliver_event : Daemon Channel → String → Event → ℕ → ℕ → Daemon Channel
  deliver_event d session event ts now =
      let (registry, answer) = dispatch try_send d.registry session event ts now in
      record d { registry = registry }

  abbrev pub event_of : Room → Message Source → Parsed Source → PersonConfig → RoomKind → Event
  event_of room m parsed person kind = record {
    kind = EventKind.message;
    person = person.name;
    role = person.role;
    sender = m.sender;
    room_id = room.room_id;
    room = kind;
    event_id = m.event_id;
    ts = rfc3339_utc m.origin_server_ts;
    in_reply_to = parsed.in_reply_to;
    thread = parsed.thread;
    reacts_to = none;
    text = "";
    transcribed = false;
    attachments = [];
  }

  abbrev pub hand_on :
      Daemon Channel
      → Room
      → Message Source
      → Parsed Source
      → Body Source
      → Option Admitted
      → ℕ
      → Daemon Channel × Option (Pending Source)
  hand_on d room m parsed body none now = (d, none)
  hand_on d room m parsed (Body.text_body text) (some (session, person, kind)) now = (
    deliver_event d session (record (event_of room m parsed person kind) { text = text })
        m.origin_server_ts now,
    none,
  )
  hand_on d room m parsed (Body.media_body media) (some (session, person, kind)) now = (
    d,
    some (record {
      session = session;
      event = record (event_of room m parsed person kind) { text = media.caption };
      media = media;
      ts = m.origin_server_ts;
    }),
  )
  hand_on d room m parsed Body.edit (some who) now = (d, none)
  hand_on d room m parsed (Body.other_body msgtype) (some who) now = (d, none)

  -- does the bridge carry it?
  abbrev pub carried : Body Source → Bool
  carried (Body.text_body _) = true
  carried (Body.media_body _) = true
  carried Body.edit = false
  carried (Body.other_body _) = false

  unfoldable pub on_message :
      Daemon Channel → Room → Message Source → ℕ → Daemon Channel × Option (Pending Source)
  unfolding admit deliver_event
  on_message d room m now =
      let parsed = parse remove_fallback guess m.relates_to m.msgtype in
      if not room.joined
      then (d, none)
      else if not (carried parsed.body)
      then (d, none)
      else hand_on d room m parsed parsed.body (admit d room m.sender m.event_id m.origin_server_ts)
          now

  -- `note`
  unfoldable pub note : Event → String → Event
  note event line =
      if str_eq event.text ""
      then (record event { text = line })
      else (record event { text = push_str event.text (push_str "\n" line) })

  abbrev pub over : ℕ → Option ℕ → Bool
  over max none = false
  over max (some size) = ltb max size

  abbrev pub transfer_of : Event → String
  transfer_of event = push_str (safe_id event.event_id) "-1"

  abbrev pub with_download :
      Daemon Channel → Event → Media Source → Download → Daemon Channel × Event
  with_download d event media (Download.downloaded content) =
      let attachment : Attachment = record {
        transfer = transfer_of event;
        name = media.name;
        mime = media.mime;
        size = length content;
      } in
      (
        record d { inbox = insert (transfer_of event) content d.inbox },
        record event { attachments = event.attachments ++ attachment ∷ [] },
      )
  with_download d event media (Download.too_large size) =
      (d, note event (explain media (Missing.is_over_limit size)))
  with_download d event media Download.not_downloaded =
      (d, note event (explain media Missing.download_failed))
  with_download d event media Download.late = (d, note event (explain media Missing.download_late))

  unfoldable pub fetch_attachment :
      Daemon Channel → ℕ → Event → Media Source → Fetched → Daemon Channel × Event
  unfolding note download
  fetch_attachment d max event media answer =
      if over max media.size
      then (d, note event (explain media Missing.over_limit))
      else with_download d event media (download max answer)

  -- the task of a message with a file
  unfoldable pub deliver_pending :
      Daemon Channel → ℕ → Pending Source → Fetched → ℕ → Daemon Channel
  unfolding fetch_attachment deliver_event
  deliver_pending d max pending answer now =
      let (d', event) = fetch_attachment d max pending.event pending.media answer in
      deliver_event d' pending.session event pending.ts now

  -- who sent what a reaction is on: an error, an event without a sender, or the sender
  abbrev pub on_own : Daemon Channel → Option (Option String) → Bool
  on_own d none = false
  on_own d (some none) = false
  on_own d (some (some sender)) = is_bot d.routing sender

  abbrev pub reacted :
      Daemon Channel
      → Room
      → Reaction
      → Option (Option String)
      → Option Admitted
      → ℕ
      → Daemon Channel
  reacted d room r target none now = d
  reacted d room r target (some (session, person, kind)) now =
      let event : Event = record {
        kind = EventKind.reaction;
        person = person.name;
        role = person.role;
        sender = r.sender;
        room_id = room.room_id;
        room = kind;
        event_id = r.event_id;
        ts = rfc3339_utc r.origin_server_ts;
        in_reply_to = none;
        thread = none;
        reacts_to = some r.target;
        text = r.key;
        transcribed = false;
        attachments = [];
      } in
      if on_own d target then deliver_event d session event r.origin_server_ts now else d

  unfoldable pub on_reaction :
      Daemon Channel → Room → Reaction → Option (Option String) → ℕ → Daemon Channel
  unfolding admit deliver_event
  on_reaction d room r target now =
      if not room.joined
      then d
      else if is_bot d.routing r.sender
      then d
      else reacted d room r target (admit d room r.sender r.event_id r.origin_server_ts) now
