-- ===== src/Protocol.antt =====
-- crates/silta/src/protocol.rs: the socket protocol's data. The JSON encoding is not modelled.
pub mod Commands
use silta.Common.{ℕ, String, Bool, Option, List}

pub record FileHeader : Type 0 where
  pub transfer : String
  pub name : String
  pub mime : String
  pub size : ℕ

-- the field `data` of the source; a word of the language here
pub record FileChunk : Type 0 where
  pub transfer : String
  pub data_base64 : String

pub record FileEnd : Type 0 where
  pub transfer : String

pub data Role : Type 0 where
  owner family : Role

pub record Person : Type 0 where
  pub name : String
  pub role : Role

pub data EventKind : Type 0 where
  message reaction : EventKind

pub data RoomKind : Type 0 where
  dm group : RoomKind

pub record Attachment : Type 0 where
  pub transfer : String
  pub name : String
  pub mime : String
  pub size : ℕ

pub record Event : Type 0 where
  pub kind : EventKind
  pub person : String
  pub role : Role
  pub sender : String
  pub room_id : String
  pub room : RoomKind
  pub event_id : String
  pub ts : String
  pub in_reply_to : Option String
  pub thread : Option String
  pub reacts_to : Option String
  pub text : String
  pub transcribed : Bool
  pub attachments : List Attachment

pub data ErrorCode : Type 0 where
  protocol_mismatch unknown_session session_busy bad_request wrong_user : ErrorCode
