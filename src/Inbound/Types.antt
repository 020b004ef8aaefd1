-- ===== src/Inbound/Types.antt =====
-- The data of crates/siltad/src/matrix.rs: what the handlers are told, and what they leave.
use silta.Common.{ℕ, String, Bool, Option, List}
use silta.Protocol.{Event}
use silta.Config.Routing.{RoomShape}
use silta.Inbound.Content.{Relation, MessageType, Media}

pub record Room : Type 0 where
  pub room_id : String
  pub joined : Bool
  -- none: they cannot be listed
  pub members : Option (List String)
  pub shape : RoomShape

pub record Message (Source : Type 0) : Type 0 where
  pub sender : String
  pub event_id : String
  pub origin_server_ts : ℕ
  pub relates_to : Option Relation
  pub msgtype : MessageType Source

pub record Reaction : Type 0 where
  pub sender : String
  pub event_id : String
  pub origin_server_ts : ℕ
  pub target : String
  pub key : String

-- an event whose file is being fetched
pub record Pending (Source : Type 0) : Type 0 where
  pub session : String
  pub event : Event
  pub media : Media Source
  pub ts : ℕ

-- what the client gives for a file: its bytes, an error of the download or of writing them, or
-- nothing in time
pub data Fetched : Type 0 where
  fetched : (content : List ℕ) → Fetched
  failed timed_out : Fetched

-- how a download ends
pub data Download : Type 0 where
  downloaded : (content : List ℕ) → Download
  too_large : (bytes : ℕ) → Download
  not_downloaded late : Download

-- why a file is not with its event
pub data Missing : Type 0 where
  over_limit : Missing
  is_over_limit : (bytes : ℕ) → Missing
  download_failed download_late : Missing
