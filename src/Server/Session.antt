-- ===== src/Server/Session.antt =====
-- A connection from its first line to its end, crates/siltad/src/server.rs (`handle`). What is
-- written fails at a given point or not at all: `welcomes` tells whether the welcome line could be
-- written, `backlog` whether all queued messages could.
use silta.Common.{ℕ, Bool, Option, none, List, [], String, if◌then◌else◌}
use silta.Watch.Types.{Alert}
use silta.Transfer.Receiver
use silta.Transfer.Receiver.{TransferError}
use silta.Registry.Table.{Stamped, take_backlog, release}
use silta.Protocol.Commands.{CmdResult}
use silta.Daemon.State.{session_connected}
use silta.Server.Connection.{Shared, Outbound, Files}
use silta.Server.Loop.{Input, loop, close}
use silta.Server.Handshake.{First, Answer, greet}
use Prim.Native.String.{◌++◌}

-- what a connection saw of the daemon
pub record Seen (Channel : Type 0) : Type 0 where
  pub answer : Answer Channel
  pub alert : Option Alert
  -- the events written from the backlog, if they all were, and the results
  pub queued : List Stamped
  pub results : List CmdResult

pub record Course (Channel : Type 0) : Type 0 where
  pub peer : Option ℕ
  pub channel : Channel
  pub first : First
  pub welcomes : Bool
  pub backlog : Bool
  pub inputs : List Input
  -- when it starts and when it ends
  pub begun : ℕ
  pub ended : ℕ

module _ {Channel World : Type 0} (extension : String → Option String)
    (decode : String → Option (List ℕ)) (outbound : Outbound Channel World)
    (complaint : String → Option TransferError → String) (max_bytes : ℕ) where
  abbrev pub drop_claim : Shared Channel World → String → ℕ → Shared Channel World
  drop_claim s session now =
      let (registry, returned, evicted) = release s.daemon.registry session now in
      record s { daemon = record s.daemon { registry = registry } }

  abbrev pub no_files : String → Files
  no_files session = record {
    receiver = Receiver.new (session ++ "-") max_bytes;
    received = [];
    failed = [];
  }

  abbrev pub served :
      Shared Channel World → Course Channel → Answer Channel → Shared Channel World × Seen Channel
  served s c Answer.dropped =
      (s, record { answer = Answer.dropped; alert = none; queued = []; results = [] })
  served s c (Answer.refused code) =
      (s, record { answer = Answer.refused code; alert = none; queued = []; results = [] })
  served s c (Answer.welcomed session welcome registry) =
      let answer : Answer Channel = Answer.welcomed session welcome registry in
      let claimed : Shared Channel World = record s {
        daemon = record s.daemon { registry = registry };
      } in
      let (connected, alert) = session_connected claimed.daemon session c.begun in
      let (registry', queued, evicted) = take_backlog connected.registry session c.begun in
      let taken : Shared Channel World = record claimed {
        daemon = record connected { registry = registry' };
      } in
      let (s', f, results) =
        loop extension decode outbound complaint taken (no_files session) session c.inputs in
      if c.welcomes
      then (if c.backlog
          then (
            close extension decode outbound complaint s' f session c.ended,
            record { answer = answer; alert = alert; queued = queued; results = results },
          )
          else (
            drop_claim taken session c.ended,
            record { answer = answer; alert = alert; queued = []; results = [] },
          ))
      else (
        drop_claim claimed session c.ended,
        record { answer = answer; alert = none; queued = []; results = [] },
      )

  unfoldable pub handle :
      Shared Channel World → Course Channel → Shared Channel World × Seen Channel
  unfolding greet loop close session_connected
  handle s c = served s c (greet s.daemon c.peer c.channel c.first)
