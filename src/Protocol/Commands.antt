-- ===== src/Protocol/Commands.antt =====
-- crates/silta/src/protocol.rs: the messages of both sides. Their JSON is outside.
use silta.Common.{
  ℕ, String, Bool, true, false, Option, none, some, List, [], ◌∷◌, ◌⊎◌, inl, inr, str_eq,
  if◌then◌else◌,
}
use silta.Protocol.{FileHeader, FileChunk, FileEnd, Person, Role, ErrorCode, Event}

abbrev pub protocol_version : ℕ
protocol_version = 4

pub record Ack : Type 0 where
  pub event_id : String

pub record Hello : Type 0 where
  pub protocol : ℕ
  pub session : String
  pub client : String

pub record Welcome : Type 0 where
  pub protocol : ℕ
  pub session : String
  pub user_id : String
  pub people : List Person
  pub inbox_max_age_days : ℕ

pub record Reply : Type 0 where
  pub room_id : String
  pub text : String
  pub reply_to : Option String
  pub thread : Option String
  pub more : Bool

pub record React : Type 0 where
  pub room_id : String
  pub event_id : String
  pub emoji : String
  pub more : Bool

pub record Edit : Type 0 where
  pub room_id : String
  pub event_id : String
  pub text : String
  pub more : Bool

pub record SendFile : Type 0 where
  pub room_id : String
  pub transfer : String
  pub caption : Option String
  pub reply_to : Option String
  pub thread : Option String
  pub more : Bool

pub record Typing : Type 0 where
  pub room_id : String

pub record FetchMessages : Type 0 where
  pub room_id : String
  pub limit : Option ℕ
  pub from : Option String

pub record FetchMessage : Type 0 where
  pub room_id : String
  pub event_id : String

pub record SearchMessages : Type 0 where
  pub room_id : String
  pub pattern : String
  pub limit : Option ℕ
  pub from : Option String

pub data CmdKind : Type 0 where
  reply : Reply → CmdKind
  react : React → CmdKind
  edit : Edit → CmdKind
  send_file : SendFile → CmdKind
  fetch_messages : FetchMessages → CmdKind
  fetch_message : FetchMessage → CmdKind
  search_messages : SearchMessages → CmdKind
  typing : Typing → CmdKind

pub record Cmd : Type 0 where
  pub id : ℕ
  pub kind : CmdKind

pub record HistoryAttachment : Type 0 where
  pub name : String
  pub mime : String
  pub size : ℕ

pub record HistoryMessage : Type 0 where
  pub event_id : String
  pub sender : String
  pub person : Option String
  pub role : Option Role
  pub own : Bool
  pub ts : String
  pub in_reply_to : Option String
  pub thread : Option String
  pub text : String
  pub match_start : Option ℕ
  pub attachments : List HistoryAttachment

pub data ResultError : Type 0 where
  room_not_allowed room_unknown send_failed bad_request not_found file_error unknown : ResultError

pub record CmdResult : Type 0 where
  pub id : ℕ
  pub ok : Bool
  pub event_id : Option String
  pub error : Option ResultError
  pub message : Option String
  pub messages : Option (List HistoryMessage)
  pub more : Option String
  pub scanned : Option ℕ
  pub until : Option String

-- `CmdResult::done`: a command that produced no event
abbrev pub done : ℕ → CmdResult
done id = record {
  id = id;
  ok = true;
  event_id = none;
  error = none;
  message = none;
  messages = none;
  more = none;
  scanned = none;
  until = none;
}

-- `CmdResult::ok`
abbrev pub ok_with : ℕ → String → CmdResult
ok_with id event_id = record (done id) { event_id = some event_id }

abbrev pub history : ℕ → List HistoryMessage → Option String → CmdResult
history id messages more = record (done id) { messages = some messages; more = more }

abbrev pub with_scan : CmdResult → ℕ → Option String → CmdResult
with_scan r scanned until = record r { scanned = some scanned; until = until }

-- `CmdResult::err`
abbrev pub err : ℕ → ResultError → String → CmdResult
err id error message = record (done id) { ok = false; error = some error; message = some message }

pub data ClientMessage : Type 0 where
  hello : Hello → ClientMessage
  cmd : Cmd → ClientMessage
  file : FileHeader → ClientMessage
  chunk : FileChunk → ClientMessage
  file_end : FileEnd → ClientMessage
  ack : Ack → ClientMessage

pub record ProtocolError : Type 0 where
  pub code : ErrorCode
  pub message : String

pub data DaemonMessage : Type 0 where
  welcome : Welcome → DaemonMessage
  error : ProtocolError → DaemonMessage
  event : Event → DaemonMessage
  result : CmdResult → DaemonMessage
  file : FileHeader → DaemonMessage
  chunk : FileChunk → DaemonMessage
  file_end : FileEnd → DaemonMessage

-- how the daemon treats a line
pub data Incoming : Type 0 where
  message : ClientMessage → Incoming
  bad_request : (id : ℕ) → (message : String) → Incoming
  ignored : (message : String) → Incoming

-- the keys of a command but its id
abbrev pub but_id : List String → List String
but_id [] = []
but_id (name ∷ names) = let rest = but_id names in if str_eq name "id" then rest else name ∷ rest

-- A JSON value is what `serde_json` makes of a line: its type, its reading as a message, the
-- number at `cmd.id` and the keys of the object at `cmd` are parameters, and so is the text that
-- a list of names and an error make.
module _ {Value : Type 0} (from_str : String → Option Value)
    (deserialize : Value → ClientMessage ⊎ String) (cmd_id : Value → Option ℕ)
    (cmd_keys : Value → Option (List String)) (malformed : List String → String → String) where
  abbrev pub complaint : Option (List String) → String → String
  complaint none why = why
  complaint (some names) why = malformed (but_id names) why

  abbrev pub rejected : Option ℕ → String → Incoming
  rejected (some id) why = Incoming.bad_request id why
  rejected none why = Incoming.ignored why

  abbrev pub classify : Value → ClientMessage ⊎ String → Incoming
  classify value (inl known) = Incoming.message known
  classify value (inr why) = rejected (cmd_id value) (complaint (cmd_keys value) why)

  abbrev pub parsed : Option Value → Option Incoming
  parsed none = none
  parsed (some value) = some (classify value (deserialize value))

  -- none: the line is not JSON at all, which closes the connection
  unfoldable pub parse_client_line : String → Option Incoming
  parse_client_line line = parsed (from_str line)
