-- ===== src/Examples/Messages.antt =====
-- The theorems on incoming messages and on long texts, at concrete inputs.
use Prim.Native.Char.{char}
use silta.Common.{ℕ, ◌≡◌, true, false, Option, none, some, List, [], ◌∷◌, String, arith, All}
use silta.Protocol.{Event, EventKind, Role, RoomKind}
use silta.Config.Types.{PersonConfig, SessionConfig, Receive, SendPolicy}
use silta.Config.Routing.{Routing}
use silta.Registry.Table.{Sent}
use silta.Daemon.State.{Daemon}
use silta.Inbound.Content.{MessageType, Media}
use silta.Inbound.Types.{Room, Message, Missing}
use silta.Inbound.Handlers.{on_message}
use silta.Inbound.Admission.{Outcome, on_message-Outcome}
use silta.Text.Lines.{Text}
use silta.Text.Chunks.{chunk_text}
use silta.Text.Bounds.{IsChunk, chunk_text-IsChunk}
use silta.Text.Solid.{solid, solids}
use silta.Text.Kept.{solids-chunk_text}

abbrev alice : PersonConfig
alice = record { name = "alice"; role = Role.owner; addresses = "@alice:example.org" ∷ [] }

abbrev mind : SessionConfig
mind = record { name = "mind"; receive = Receive.all; send = SendPolicy.any; user = "alice" }

abbrev routing : Routing
routing = record {
  bot = "@bot:example.org";
  people = alice ∷ [];
  by_address = ("@alice:example.org", 0) ∷ [];
  sessions = mind ∷ [];
  by_name = ("mind", 0) ∷ [];
  by_room = [];
  by_person = [];
  all = some 0;
  groups = none;
}

abbrev daemon : Daemon (List Event)
daemon = record {
  routing = routing;
  registry = record { inner = []; backlogs = []; inflight = []; max_age_ms = 1000 };
  started_at_ms = 100;
  replay_window_ms = 1000;
  inbox_max_age_days = 7;
  users = [];
  alerts = record { grace_ms = 0; sessions = [] };
  marks = record { map = [] };
  typing = record { tasks = []; generation = 0; running = [] };
  inbox = [];
  known_rooms = "!room" ∷ [];
  read_markers = [];
  is_event_id = λ event. true;
}

abbrev room : Room
room = record {
  room_id = "!room";
  joined = true;
  members = some ("@bot:example.org" ∷ "@alice:example.org" ∷ []);
  shape = record { direct = true; named = false };
}

abbrev message : Message Unit
message = record {
  sender = "@alice:example.org";
  event_id = "$1";
  origin_server_ts = 90;
  relates_to = none;
  msgtype = MessageType.text "hello";
}

abbrev try_send : List Event → Event → List Event × Sent
try_send queue event = (event ∷ queue, Sent.sent)

abbrev as_it_is : String → String
as_it_is body = body

abbrev unknown_type : String → Option String
unknown_type name = none

abbrev time_text : ℕ → String
time_text ms = "1970-01-01T00:00:00Z"

abbrev explain : Media Unit → Missing → String
explain media missing = "[attachment]"

on_message-Outcome_example :
    Outcome try_send as_it_is unknown_type time_text explain daemon room message 120
      (on_message try_send as_it_is unknown_type time_text explain daemon room message 120)
on_message-Outcome_example =
    on_message-Outcome try_send as_it_is unknown_type time_text explain daemon room message 120

abbrev event : Event
event = record {
  kind = EventKind.message;
  person = "alice";
  role = Role.owner;
  sender = "@alice:example.org";
  room_id = "!room";
  room = RoomKind.dm;
  event_id = "$1";
  ts = "1970-01-01T00:00:00Z";
  in_reply_to = none;
  thread = none;
  reacts_to = none;
  text = "hello";
  transcribed = false;
  attachments = [];
}

-- "ab", a blank line, "cde"
abbrev two_paragraphs : Text
two_paragraphs =
    char 97 tt ∷ char 98 tt ∷ char 10 tt ∷ char 10 tt ∷ char 99 tt ∷ char 100 tt ∷ char 101 tt ∷ []

chunk_text-IsChunk_example :
    (chunks : List Text) × (chunk_text two_paragraphs 4 ≡ some chunks) × All (IsChunk 4) chunks
chunk_text-IsChunk_example = chunk_text-IsChunk two_paragraphs 4 (omega arith)

solids-chunk_text_example :
    (chunks : List Text) × (chunk_text two_paragraphs 4 ≡ some chunks)
    × (solids chunks ≡ solid two_paragraphs)
solids-chunk_text_example = solids-chunk_text two_paragraphs 4 (omega arith)
