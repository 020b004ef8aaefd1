-- ===== src/Lib.antt =====
-- Silta connects Matrix rooms to Claude Code sessions. The daemon (crates/siltad) receives the
-- messages of a bot's rooms, decides which session each is for, and hands it over a socket to
-- the session's plugin (crates/silta-claude) or keeps it until the session is back. A supervisor
-- (crates/silta-session) runs Claude Code for one session and rotates its context when it has
-- grown. What both sides share is in crates/silta. This library models the parts that decide:
-- state is a record, a method that mutates returns the new state with what it answers, a call
-- that can fail answers an option or a result.
--
-- Numbers are natural numbers: milliseconds and counts of u64 and u32, with saturating sums and
-- wrap-around written out where the code relies on them, and instants as numbers on one clock.
-- Maps are association lists, sets are lists without repetitions, and file contents that matter
-- are fields of a record.
--
-- * Rotation models crates/silta-session/src/rotation.rs: Rotation/Types its data, Rotation/Tracker
--   the methods of `Tracker` (`event` in two steps, `absorb` and `react`). Rotation/Run strings
--   together the calls that crates/silta-session/src/lib.rs makes of it, and Rotation/Protocol
--   states the order of actions the supervisor may rely on, as an automaton over stages.
-- * Stream holds the events of crates/silta-session/src/stream.rs, without the reading of the JSON.
-- * Supervisor models crates/silta-session/src/lib.rs, state.rs and contract.rs. Supervisor/State
--   is the state directory, with one flag for whether it takes writes. Supervisor/Plan is
--   `plan_start`, Supervisor/Methods the methods of `Run`, Supervisor/Loop the loop of `run_once` on
--   a line of output, on a tick and on the unit's stop, with the lines written to claude and the
--   snapshots asked for as lists. The process, the journal's text and the host lines' text are
--   outside, and so are the outer loop, credentials and the copying of snapshots.
-- * Backlog models crates/silta/src/backlog.rs, and Registry the registry of sessions and
--   `dispatch` of crates/siltad/src/daemon.rs, which keep it. A connection's queue is a parameter:
--   its state and what `try_send` does to it. What a method does under one hold of a lock is a
--   definition of Registry/Table; Registry/Accounting runs these sections of any threads in any
--   order, with what each thread has in hand. As functions, the methods are their undisturbed runs,
--   which is what the other modules call.
-- * Replay models crates/silta/src/replay.rs and the watermarks of crates/siltad/src/daemon.rs,
--   without their file. Watch models crates/silta/src/alert.rs.
-- * Config models validation and routing of crates/silta/src/config.rs, without the parsing of the
--   configuration's text. Protocol holds the data of crates/silta/src/protocol.rs, and
--   Protocol/Commands the messages of both sides and the classification of a client's line; what
--   the JSON library makes of a line is a parameter.
-- * Line models `next_line` of crates/silta/src/line.rs: the stream is the list of the pieces that
--   each read finds, and the decoding of UTF-8 is a parameter.
-- * Transfer models crates/silta/src/transfer.rs: Transfer/Names the safe names, Transfer/Disk the
--   files with their handles, Transfer/Receiver the transfers in progress, Transfer/Send the
--   sending. Base64 and the table of mime types are parameters, and so is what the file system
--   answers where it may fail.
-- * Daemon models the rest of crates/siltad/src/daemon.rs: Daemon/State what the daemon does when a
--   session comes, goes and acknowledges, Daemon/Typing the typing indicators, whose tasks are a
--   list of those still running.
-- * Server models a connection of crates/siltad/src/server.rs: Server/Handshake who may come in,
--   Server/Connection the files and the commands, Server/Loop the reading loop and the end,
--   Server/Session the whole, Server/Writing the writing side. Nothing but the connection changes
--   the shared state while it is handled; what the commands do is an interface, `Outbound`.
-- * Outbound models the commands of crates/siltad/src/outbound.rs over an interface to the Matrix
--   SDK (Outbound/Matrix): Outbound/Commands those that post, Outbound/History and Outbound/Readers
--   those that read a room's history. Inbound models the handlers of messages and reactions in
--   crates/siltad/src/matrix.rs and the reading of contents in crates/siltad/src/content.rs.
-- * Text models crates/silta/src/text.rs, with texts as lists of their characters.
-- * Common holds what the modules share; Examples applies the theorems at concrete inputs.
--
-- Two loops run on fuel, which is enough: the shortening of a name has one step per character,
-- since each step takes one off, and the sending of a file has one round per byte and one more,
-- since each round takes a byte at least. The scan of a room's history follows the number of pages
-- that it may still read, all other loops a list.
--
-- Not modelled: the calls of the Matrix client and its login, sync and key backup, the upload of
-- files, the listening socket, the plugin's side, the sweep of old files, and the command lines.
pub mod Common
pub mod Stream
pub mod Rotation
pub mod Protocol
pub mod Backlog
pub mod Registry
pub mod Daemon
pub mod Inbound
pub mod Server
pub mod Outbound
pub mod Config
pub mod Text
pub mod Transfer
pub mod Watch
pub mod Line
pub mod Supervisor
pub mod Replay
mod Examples
