-- ===== src/Outbound/Matrix.antt =====
-- What crates/siltad/src/outbound.rs asks of the Matrix SDK, as an interface: `World` is what the
-- client sees and changes, `Content` a message to send.
use silta.Common.{ℕ, String, Bool, Option, List, ◌⊎◌}
use silta.Config.Routing.{RoomShape}

-- a room the client knows
pub record RoomView : Type 0 where
  pub joined : Bool
  -- none: they cannot be listed
  pub members : Option (List String)
  pub shape : RoomShape

-- `EnforceThread`, with `ReplyWithinThread`
pub data EnforceThread : Type 0 where
  threaded_reply threaded maybe_threaded : EnforceThread

pub record ReplyConfig : Type 0 where
  pub event_id : String
  pub enforce_thread : EnforceThread

pub data ReplyError : Type 0 where
  fetch other : ReplyError

-- an event that was fetched: who sent it, and what it is
pub data Kind : Type 0 where
  original_message replacement not_message unreadable : Kind

pub record Fetched : Type 0 where
  pub sender : Option String
  pub kind : Kind

pub record Matrix (World Content : Type 0) : Type 0 where
  pub is_room_id : String → Bool
  pub is_event_id : String → Bool
  pub get_room : World → String → Option RoomView
  pub text_markdown : String → Content
  pub annotation : String → String → Content
  pub replacement : String → String → Content
  pub make_reply_event : World → String → Content → ReplyConfig → Content ⊎ ReplyError
  pub in_thread : Content → Bool
  -- the event's id, or an error
  pub send : World → String → Content → World × Option String
  pub load_or_fetch_event : World → String → String → Option Fetched
  pub typing_notice : World → String → Bool → World
  pub now : World → ℕ
