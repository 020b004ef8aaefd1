-- ===== src/Examples/Connections.antt =====
-- The connections' theorems at a daemon of one session, whose commands all succeed.
use silta.Common.{
  ℕ, ◌≡◌, refl, Bool, true, false, Option, none, some, List, [], ◌∷◌, String, inl, inr, map,
}
use silta.Common.Assoc.{lookup, insert}
use silta.Protocol.{ErrorCode}
use silta.Protocol.Commands.{Hello, ClientMessage, Incoming, CmdKind, ResultError}
use silta.Config.Types.{SessionConfig, Receive, SendPolicy}
use silta.Config.Routing.{Routing, people_for}
use silta.Config.Routing
use silta.Registry.Table.{is_connected, claim}
use silta.Watch.Types.{State}
use silta.Daemon.State.{Daemon}
use silta.Transfer.Receiver.{TransferError}
use silta.Server.Connection.{Shared, Outbound, Effects, Answers}
use silta.Server.Loop.{Input, loop}
use silta.Server.Handshake.{First, greet, handshake, welcome}
use silta.Server.Session.{Course, handle, no_files}
use silta.Server.Admission.{Reason, Welcomed, greet-Welcomed}
use silta.Server.Answered.{asked, result_id, loop-asked}
use silta.Server.Ended.{counted_away, handle-Reason, handle-away}

abbrev pub bot : SessionConfig
bot = record { name = "bot"; receive = Receive.all; send = SendPolicy.any; user = "bot" }

abbrev pub routing : Routing
routing = record {
  bot = "@bot:example.org";
  people = [];
  by_address = [];
  sessions = bot ∷ [];
  by_name = ("bot", 0) ∷ [];
  by_room = [];
  by_person = [];
  all = some 0;
  groups = none;
}

abbrev pub away : State
away = record { disconnected_since = some 5; alerted_at = none; silent_alerted_at = none }

abbrev pub daemon : Daemon String
daemon = record {
  routing = routing;
  registry = record { inner = []; backlogs = []; inflight = []; max_age_ms = 1000 };
  started_at_ms = 5;
  replay_window_ms = 1000;
  inbox_max_age_days = 7;
  users = ("bot", 1001) ∷ [];
  alerts = record { grace_ms = 60000; sessions = ("bot", away) ∷ [] };
  marks = record { map = [] };
  typing = record { tasks = []; generation = 0; running = [] };
  inbox = [];
  known_rooms = [];
  read_markers = [];
  is_event_id = λ event. true;
}

abbrev pub shared : Shared String Unit
shared = record { daemon = daemon; world = tt; disk = record { files = []; names = [] } }

abbrev unchanged : Shared String Unit → Effects Unit
unchanged s = record { typing = s.daemon.typing; world = tt; disk = s.disk }

abbrev outbound : Outbound String Unit
outbound = record {
  do_reply = λ s session c. (unchanged s, inl "$sent");
  do_react = λ s session c. (unchanged s, inl "$sent");
  do_edit = λ s session c. (unchanged s, inl "$sent");
  do_send_file = λ s session c file. (unchanged s, inl "$sent");
  do_fetch_messages = λ s session c. (unchanged s, inl ([], none));
  do_fetch_message = λ s session c. (unchanged s, inr (ResultError.not_found, "no such event"));
  do_search_messages = λ s session c. (unchanged s, inr (ResultError.bad_request, "no pattern"));
  do_typing = λ s session c. (unchanged s, none);
}

abbrev extension : String → Option String
extension mime = none

abbrev decode : String → Option (List ℕ)
decode s = none

abbrev complaint : String → Option TransferError → String
complaint transfer why = "transfer"

abbrev hello : ℕ → Hello
hello protocol = record { protocol = protocol; session = "bot"; client = "test" }

abbrev said : ℕ → First
said protocol = First.line (some (Incoming.message (ClientMessage.hello (hello protocol))))

abbrev answers : Answers
answers = record { opens = true; wrote = none; flushed = true }

abbrev inputs : List Input
inputs =
    Input.line
      (some (
        Incoming.message (
          ClientMessage.cmd
            (record { id = 1; kind = CmdKind.typing (record { room_id = "!room" }) }))))
      answers 20 true
    ∷ Input.line (some (Incoming.message (ClientMessage.ack (record { event_id = "$1" })))) answers
        21 true
    ∷ Input.line (some (Incoming.bad_request 2 "unsupported")) answers 22 true
    ∷ Input.line none answers 23 true
    ∷ []

loop-asked_example :
    map result_id
      (loop extension decode outbound complaint shared
        (no_files extension decode outbound complaint 10 "bot")
        "bot"
        inputs).2
    ≡ 1 ∷ 2 ∷ []
unfolding asked
loop-asked_example =
    loop-asked extension decode outbound complaint shared
      (no_files extension decode outbound complaint 10 "bot") "bot" inputs

abbrev course : ℕ → Bool → Course String
course protocol backlog = record {
  peer = some 1001;
  channel = "queue";
  first = said protocol;
  welcomes = true;
  backlog = backlog;
  inputs = inputs;
  begun = 10;
  ended = 30;
}

handle-Reason_example :
    ((handle extension decode outbound complaint 10 shared (course 3 true)).0 ≡ shared)
    × Reason ErrorCode.protocol_mismatch daemon (some 1001) (said 3)
unfolding greet handshake
handle-Reason_example =
    handle-Reason extension decode outbound complaint shared (course 3 true) 10
      ErrorCode.protocol_mismatch refl

greet-Welcomed_example :
    Welcomed daemon
      (some 1001)
      "queue"
      (said 4)
      "bot"
      (record daemon.registry { inner = ("bot", "queue") ∷ [] })
unfolding greet handshake claim insert is_connected Routing.session lookup people_for
greet-Welcomed_example =
    greet-Welcomed daemon (some 1001) "queue" (said 4) "bot" (welcome daemon "bot")
      (record daemon.registry { inner = ("bot", "queue") ∷ [] }) refl

handle-away_example :
    let after = (handle extension decode outbound complaint 10 shared (course 4 false)).0.daemon in
    (is_connected after.registry "bot" ≡ false) × (counted_away after.alerts "bot" ≡ false)
unfolding greet handshake claim insert is_connected Routing.session lookup people_for
handle-away_example =
    handle-away extension decode outbound complaint shared (course 4 false) 10 "bot"
      (welcome daemon "bot") (record daemon.registry { inner = ("bot", "queue") ∷ [] }) away refl
      refl
