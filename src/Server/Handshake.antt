-- ===== src/Server/Handshake.antt =====
-- The start of a connection, crates/siltad/src/server.rs (`handle`, `handshake`, `refuse`): who may
-- come in. The texts of the refusals are left out.
use silta.Common.{
  ℕ, Bool, false, Option, none, some, String, ◌⊎◌, inl, inr, is_some, not, ◌==◌, if◌then◌else◌,
}
use silta.Common.Assoc.{lookup}
use silta.Protocol.{ErrorCode}
use silta.Protocol.Commands.{Hello, Welcome, ClientMessage, Incoming, protocol_version}
use silta.Config.Routing.{Routing, people_for}
use silta.Config.Routing
use silta.Registry.Table.{Registry, claim}
use silta.Daemon.State.{Daemon}

-- what the first line is
pub data First : Type 0 where
  timed_out unreadable closed : First
  -- none: not JSON
  line : Option Incoming → First

-- what a newcomer is told: a refusal with its code, a welcome, or nothing
pub data Answer (Channel : Type 0) : Type 0 where
  dropped : Answer Channel
  refused : ErrorCode → Answer Channel
  welcomed : (session : String) → Welcome → Registry Channel → Answer Channel

-- `handshake`: the hello, or the refusal it sent, if any
unfoldable pub handshake : First → Hello ⊎ Option ErrorCode
handshake First.timed_out = inr (some ErrorCode.bad_request)
handshake First.unreadable = inr none
handshake First.closed = inr none
handshake (First.line (some (Incoming.message (ClientMessage.hello hello)))) = inl hello
handshake (First.line (some (Incoming.message (ClientMessage.cmd _)))) =
    inr (some ErrorCode.bad_request)
handshake (First.line (some (Incoming.message (ClientMessage.file _)))) =
    inr (some ErrorCode.bad_request)
handshake (First.line (some (Incoming.message (ClientMessage.chunk _)))) =
    inr (some ErrorCode.bad_request)
handshake (First.line (some (Incoming.message (ClientMessage.file_end _)))) =
    inr (some ErrorCode.bad_request)
handshake (First.line (some (Incoming.message (ClientMessage.ack _)))) =
    inr (some ErrorCode.bad_request)
handshake (First.line (some (Incoming.bad_request _ _))) = inr (some ErrorCode.bad_request)
handshake (First.line (some (Incoming.ignored _))) = inr (some ErrorCode.bad_request)
handshake (First.line none) = inr none

-- the user that the session runs as, and the user on the other end
abbrev pub same_user : Option ℕ → Option ℕ → Bool
same_user (some uid) (some peer) = uid == peer
same_user (some uid) none = false
same_user none peer = false

module _ {Channel : Type 0} where
  abbrev pub welcome : Daemon Channel → String → Welcome
  welcome daemon session = record {
    protocol = protocol_version;
    session = session;
    user_id = daemon.routing.bot;
    people = people_for daemon.routing session;
    inbox_max_age_days = daemon.inbox_max_age_days;
  }

  abbrev pub claimed : Daemon Channel → String → Option (Registry Channel) → Answer Channel
  claimed daemon session none = Answer.refused ErrorCode.session_busy
  claimed daemon session (some registry) = Answer.welcomed session (welcome daemon session) registry

  abbrev pub admit : Daemon Channel → Option ℕ → Channel → Hello ⊎ Option ErrorCode → Answer Channel
  admit daemon peer channel (inr none) = Answer.dropped
  admit daemon peer channel (inr (some code)) = Answer.refused code
  admit daemon peer channel (inl hello) =
      if not (hello.protocol == protocol_version)
      then Answer.refused ErrorCode.protocol_mismatch
      else if not (is_some (Routing.session daemon.routing hello.session))
      then Answer.refused ErrorCode.unknown_session
      else if not (same_user (lookup hello.session daemon.users) peer)
      then Answer.refused ErrorCode.wrong_user
      else claimed daemon hello.session (claim daemon.registry hello.session channel)

  unfoldable pub greet : Daemon Channel → Option ℕ → Channel → First → Answer Channel
  unfolding handshake
  greet daemon peer channel first = admit daemon peer channel (handshake first)
