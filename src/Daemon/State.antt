-- ===== src/Daemon/State.antt =====
-- `Daemon` of crates/siltad/src/daemon.rs, and what it does when a session comes, acknowledges an
-- event and goes. Of Matrix it keeps which rooms the client knows and the last event each room's
-- read marker was moved to; that a room id does not parse counts as no such room. Which event ids parse
-- is the SDK's, `is_event_id`.
use silta.Common.{ℕ, Bool, true, false, Option, List, [], ◌∷◌, String, if◌then◌else◌}
use silta.Common.Assoc.{Assoc, insert, remove}
use silta.Common.Names.{contains}
use silta.Protocol.{Event, EventKind, Attachment}
use silta.Config.Routing.{Routing}
use silta.Registry.Table.{Registry}
use silta.Replay.Marks.{Marks, Watermark}
use silta.Replay.Marks
use silta.Watch.Types.{Watch, Alert}
use silta.Watch.Alerts
use silta.Daemon.Typing.{Indicators, typing_start}

pub record Daemon (Channel : Type 0) : Type 0 where
  pub routing : Routing
  pub registry : Registry Channel
  pub started_at_ms : ℕ
  pub replay_window_ms : ℕ
  pub inbox_max_age_days : ℕ
  pub users : Assoc ℕ
  pub alerts : Watch
  pub marks : Marks
  pub typing : Indicators
  -- the files of the spool's inbox, by transfer id
  pub inbox : Assoc (List ℕ)
  pub known_rooms : List String
  pub read_markers : Assoc String
  pub is_event_id : String → Bool

abbrev pub remove_attachments : List Attachment → Assoc (List ℕ) → Assoc (List ℕ)
remove_attachments [] inbox = inbox
remove_attachments (attachment ∷ rest) inbox =
    remove_attachments rest (remove attachment.transfer inbox)

abbrev pub is_message : EventKind → Bool
is_message EventKind.message = true
is_message EventKind.reaction = false

module _ {Channel : Type 0} where
  unfoldable pub session_connected : Daemon Channel → String → ℕ → Daemon Channel × Option Alert
  session_connected daemon session now =
      let (alerts, alert) = Alerts.connected daemon.alerts session now in
      (record daemon { alerts = alerts }, alert)

  unfoldable pub session_disconnected : Daemon Channel → String → ℕ → Daemon Channel
  session_disconnected daemon session now = record daemon {
    alerts = Alerts.disconnected daemon.alerts session now;
  }

  unfoldable pub mark_read : Daemon Channel → String → String → Daemon Channel
  mark_read daemon room_id event_id =
      if daemon.is_event_id event_id
      then record daemon { read_markers = insert room_id event_id daemon.read_markers }
      else daemon

  -- `now` is when the typing indicator starts
  unfoldable pub acked : Daemon Channel → String → Event → ℕ → ℕ → Daemon Channel
  unfolding mark_read
  acked daemon session event ts_ms now =
      let mark : Watermark = record { ts_ms = ts_ms; event_id = event.event_id } in
      let marked : Daemon Channel = record daemon {
        marks = Marks.set daemon.marks event.room_id mark;
        inbox = remove_attachments event.attachments daemon.inbox;
      } in
      let read = mark_read marked event.room_id event.event_id in
      if contains daemon.known_rooms event.room_id
      then (if is_message event.kind
          then record read { typing = typing_start read.typing session event.room_id true now }
          else read)
      else marked
