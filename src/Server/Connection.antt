-- ===== src/Server/Connection.antt =====
-- A connection after its welcome, crates/siltad/src/server.rs (`handle`), and `Daemon::execute`.
-- What the commands do is an interface, `Outbound`: `World` is what they see and change besides
-- the daemon. The writer is a task of its own, see `Server.Writing`.
use silta.Common.{
  ℕ, Bool, Option, none, some, List, [], ◌∷◌, String, ◌⊎◌, inl, inr, is_some, if◌then◌else◌,
}
use silta.Common.Assoc.{Assoc, lookup, insert}
use silta.Protocol.{FileHeader, FileChunk, FileEnd}
use silta.Protocol.Commands.{
  Reply, React, Edit, SendFile, FetchMessages, FetchMessage, SearchMessages, Typing, CmdKind,
  HistoryMessage, ResultError, CmdResult, done, ok_with, history, with_scan, err,
}
use silta.Transfer.Disk.{Disk}
use silta.Transfer.Receiver.{Receiver, Received, TransferError, Ended, begin, chunk, end}
use silta.Daemon.Typing.{Indicators}
use silta.Daemon.State.{Daemon}

abbrev pub Fail : Type 0
Fail = ResultError × String

pub record Scan : Type 0 where
  pub messages : List HistoryMessage
  pub more : Option String
  pub scanned : ℕ
  pub until : Option String

-- the state that the connections share
pub record Shared (Channel World : Type 0) : Type 0 where
  pub daemon : Daemon Channel
  pub world : World
  pub disk : Disk

-- what a command may change of it
pub record Effects (World : Type 0) : Type 0 where
  pub typing : Indicators
  pub world : World
  pub disk : Disk

unfoldable pub affected :
    {Channel World : Type 0} → Shared Channel World → Effects World → Shared Channel World
affected s effects = record s {
  daemon = record s.daemon { typing = effects.typing };
  world = effects.world;
  disk = effects.disk;
}

-- the commands of crates/siltad/src/outbound.rs, before their answers are wrapped
pub record Outbound (Channel World : Type 0) : Type 0 where
  pub do_reply : Shared Channel World → String → Reply → Effects World × (String ⊎ Fail)
  pub do_react : Shared Channel World → String → React → Effects World × (String ⊎ Fail)
  pub do_edit : Shared Channel World → String → Edit → Effects World × (String ⊎ Fail)
  pub do_send_file :
      Shared Channel World → String → SendFile → Received → Effects World × (String ⊎ Fail)
  pub do_fetch_messages :
      Shared Channel World
      → String
      → FetchMessages
      → Effects World × ((List HistoryMessage × Option String) ⊎ Fail)
  pub do_fetch_message :
      Shared Channel World → String → FetchMessage → Effects World × (HistoryMessage ⊎ Fail)
  pub do_search_messages :
      Shared Channel World → String → SearchMessages → Effects World × (Scan ⊎ Fail)
  pub do_typing : Shared Channel World → String → Typing → Effects World × Option Fail

abbrev pub failed_with : ℕ → Fail → CmdResult
failed_with id fail = err id fail.0 fail.1

abbrev pub finish : ℕ → String ⊎ Fail → CmdResult
finish id (inl event_id) = ok_with id event_id
finish id (inr fail) = failed_with id fail

abbrev pub finish_list : ℕ → (List HistoryMessage × Option String) ⊎ Fail → CmdResult
finish_list id (inl (messages, more)) = history id messages more
finish_list id (inr fail) = failed_with id fail

abbrev pub finish_one : ℕ → HistoryMessage ⊎ Fail → CmdResult
finish_one id (inl message) = history id (message ∷ []) none
finish_one id (inr fail) = failed_with id fail

abbrev pub finish_scan : ℕ → Scan ⊎ Fail → CmdResult
finish_scan id (inl scan) = with_scan (history id scan.messages scan.more) scan.scanned scan.until
finish_scan id (inr fail) = failed_with id fail

abbrev pub finish_done : ℕ → Option Fail → CmdResult
finish_done id none = done id
finish_done id (some fail) = failed_with id fail

module _ {Channel World : Type 0} (outbound : Outbound Channel World) where
  unfoldable pub execute :
      Shared Channel World → String → ℕ → CmdKind → Shared Channel World × CmdResult
  unfolding affected
  execute s session id (CmdKind.reply c) =
      let (effects, result) = outbound.do_reply s session c in
      (affected s effects, finish id result)
  execute s session id (CmdKind.react c) =
      let (effects, result) = outbound.do_react s session c in
      (affected s effects, finish id result)
  execute s session id (CmdKind.edit c) =
      let (effects, result) = outbound.do_edit s session c in (affected s effects, finish id result)
  execute s session id (CmdKind.send_file c) =
      (s, err id ResultError.bad_request "send_file is handled per connection")
  execute s session id (CmdKind.fetch_messages c) =
      let (effects, result) = outbound.do_fetch_messages s session c in
      (affected s effects, finish_list id result)
  execute s session id (CmdKind.fetch_message c) =
      let (effects, result) = outbound.do_fetch_message s session c in
      (affected s effects, finish_one id result)
  execute s session id (CmdKind.search_messages c) =
      let (effects, result) = outbound.do_search_messages s session c in
      (affected s effects, finish_scan id result)
  execute s session id (CmdKind.typing c) =
      let (effects, result) = outbound.do_typing s session c in
      (affected s effects, finish_done id result)

-- the connection's own state
pub record Files : Type 0 where
  pub receiver : Receiver
  pub received : Assoc Received
  pub failed : Assoc TransferError

-- `failed.entry(transfer)`, filled if vacant
abbrev pub note_failure : String → Option TransferError → Assoc TransferError → Assoc TransferError
note_failure transfer none failed = failed
note_failure transfer (some error) failed =
    if is_some (lookup transfer failed) then failed else insert transfer error failed

abbrev pub note_refusal : String → Option TransferError → Assoc TransferError → Assoc TransferError
note_refusal transfer none failed = failed
note_refusal transfer (some error) failed = insert transfer error failed

abbrev pub note_end : Files → String → Ended → Files
note_end f transfer (Ended.whole file) = record f { received = insert transfer file f.received }
note_end f transfer (Ended.broken error) = record f {
  failed = note_failure transfer (some error) f.failed;
}

-- what the file system answers to a line, see `Receiver`
pub record Answers : Type 0 where
  pub opens : Bool
  pub wrote : Option ℕ
  pub flushed : Bool

module _ (extension : String → Option String) (decode : String → Option (List ℕ)) where
  unfoldable pub on_file : Files → Disk → FileHeader → Bool → Files × Disk
  on_file f d head opens =
      let (receiver, d', error) = begin extension decode f.receiver d head opens in
      (record f { receiver = receiver; failed = note_refusal head.transfer error f.failed }, d')

  unfoldable pub on_chunk : Files → Disk → FileChunk → Option ℕ → Files × Disk
  on_chunk f d c wrote =
      let (receiver, d', error) = chunk extension decode f.receiver d c wrote in
      (record f { receiver = receiver; failed = note_failure c.transfer error f.failed }, d')

unfoldable pub on_file_end : Files → Disk → FileEnd → Bool → Files × Disk
on_file_end f d e flushed =
    let (receiver, d', answer) = end f.receiver d e flushed in
    (note_end (record f { receiver = receiver }) e.transfer answer, d')
