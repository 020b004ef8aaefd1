-- ===== src/Server/Loop.antt =====
-- The reading loop of a connection and its end, crates/siltad/src/server.rs (`handle`). An input
-- is a line, or what else ends the loop: the daemon's shutdown, the writer's end, the end of the
-- stream or an error of it. The result of a command goes to the writer's queue, which may be gone.
use silta.Common.{ℕ, Bool, true, Option, none, some, List, [], ◌∷◌, ◌++◌, String, if◌then◌else◌}
use silta.Common.Assoc.{Assoc, lookup, remove}
use silta.Protocol.Commands.{
  SendFile, CmdKind, ResultError, CmdResult, err, ClientMessage, Incoming,
}
use silta.Transfer.Disk.{Disk, remove_file}
use silta.Transfer.Receiver.{Received, TransferError, abort_all}
use silta.Registry.Table.{Registry, Stamped, ack, release}
use silta.Daemon.State.{Daemon, acked, session_disconnected}
use silta.Daemon.Typing.{typing_stop_session}
use silta.Server.Connection.{
  Shared, Outbound, Files, Answers, finish, execute, affected, on_file, on_chunk, on_file_end,
}

-- what one input of the loop is
pub data Input : Type 0 where
  -- `now`: when it is handled; `sendable`: whether the writer's queue takes a result
  line : (parsed : Option Incoming) (answers : Answers) (now : ℕ) (sendable : Bool) → Input
  over : Input

module _ {Channel World : Type 0} (extension : String → Option String)
    (decode : String → Option (List ℕ)) (outbound : Outbound Channel World)
    (complaint : String → Option TransferError → String) where
  -- what a line does: the connection's state, and the result to send
  abbrev pub Handled : Type 0
  Handled = Shared Channel World × Files × Option CmdResult

  abbrev pub no_result : Shared Channel World → Files × Disk → Handled
  no_result s (f, d) = (record s { disk = d }, f, none)

  -- a `send_file`, by whether its transfer arrived
  abbrev pub send_received :
      Shared Channel World → Files → String → ℕ → SendFile → Option Received → Handled
  send_received s f session id file (some there) =
      let (effects, result) = outbound.do_send_file s session file there in
      (
        affected s (record effects { disk = remove_file there.path effects.disk }),
        record f { received = remove file.transfer f.received },
        some (finish id result),
      )
  send_received s f session id file none = (
    s,
    record f { failed = remove file.transfer f.failed },
    some (err id ResultError.file_error (complaint file.transfer (lookup file.transfer f.failed))),
  )

  abbrev pub on_cmd : Shared Channel World → Files → String → ℕ → CmdKind → Handled
  on_cmd s f session id (CmdKind.send_file file) =
      send_received s f session id file (lookup file.transfer f.received)
  on_cmd s f session id kind =
      let (s', result) = execute outbound s session id kind in (s', f, some result)

  abbrev pub on_acked :
      Shared Channel World → String → Registry Channel → Option Stamped → ℕ → Shared Channel World
  on_acked s session registry none now = record s {
    daemon = record s.daemon { registry = registry };
  }
  on_acked s session registry (some (ts_ms, event)) now = record s {
    daemon = acked (record s.daemon { registry = registry }) session event ts_ms now;
  }

  unfoldable pub on_line : Shared Channel World → Files → String → Incoming → Answers → ℕ → Handled
  unfolding execute on_file on_chunk on_file_end
  on_line s f session (Incoming.message (ClientMessage.cmd c)) a now =
      on_cmd s f session c.id c.kind
  on_line s f session (Incoming.message (ClientMessage.file head)) a now =
      no_result s (on_file extension decode f s.disk head a.opens)
  on_line s f session (Incoming.message (ClientMessage.chunk c)) a now =
      no_result s (on_chunk extension decode f s.disk c a.wrote)
  on_line s f session (Incoming.message (ClientMessage.file_end e)) a now =
      no_result s (on_file_end f s.disk e a.flushed)
  on_line s f session (Incoming.message (ClientMessage.ack k)) a now =
      let (registry, found) = ack s.daemon.registry session k.event_id in
      (on_acked s session registry found now, f, none)
  on_line s f session (Incoming.message (ClientMessage.hello _)) a now = (s, f, none)
  on_line s f session (Incoming.bad_request id message) a now =
      (s, f, some (err id ResultError.bad_request message))
  on_line s f session (Incoming.ignored message) a now = (s, f, none)

  abbrev pub answered : Option CmdResult → List CmdResult
  answered none = []
  answered (some result) = result ∷ []

  -- does the loop go on? It ends where a result can no longer be sent.
  abbrev pub goes_on : Option CmdResult → Bool → Bool
  goes_on none sendable = true
  goes_on (some result) sendable = sendable

  -- the loop: what it leaves, and the results it handed to the writer, in order
  unfoldable pub loop :
      Shared Channel World
      → Files
      → String
      → List Input
      → Shared Channel World × Files × List CmdResult
  unfolding on_line
  loop s f session [] = (s, f, [])
  loop s f session (Input.over ∷ inputs) = (s, f, [])
  loop s f session (Input.line none a now sendable ∷ inputs) = (s, f, [])
  loop s f session (Input.line (some incoming) a now sendable ∷ inputs) =
      let (s', f', result) = on_line s f session incoming a now in
      let (s'', f'', later) = loop s' f' session inputs in
      if goes_on result sendable then (s'', f'', answered result ++ later) else (s', f', [])

  abbrev pub remove_all : Assoc Received → Disk → Disk
  remove_all [] d = d
  remove_all ((transfer, file) ∷ rest) d = remove_all rest (remove_file file.path d)

  -- after the loop; the claim drops last
  unfoldable pub close : Shared Channel World → Files → String → ℕ → Shared Channel World
  close s f session now =
      let (receiver, d) = abort_all f.receiver s.disk in
      let silent : Daemon Channel = record s.daemon {
        typing = typing_stop_session s.daemon.typing session;
      } in
      let gone : Daemon Channel = session_disconnected silent session now in
      let (registry, returned, evicted) = release gone.registry session now in
      record s { daemon = record gone { registry = registry }; disk = remove_all f.received d }
