-- ===== src/Server/Writing.antt =====
-- The writing side of a connection, crates/siltad/src/server.rs (`write_loop`, `write_event`). What is
-- written is the list of the lines so far; `accepts` says of each line, by how many came before it,
-- whether its write succeeds. `reads` is what the reads of an attachment's spool copy have ready,
-- none where it is gone; no read of it fails.
use silta.Common.{
  ℕ, String, Bool, true, false, Option, none, some, List, [], ◌∷◌, ◌++◌, length, if◌then◌else◌,
}
use silta.Protocol.{Attachment, Event, FileHeader}
use silta.Protocol.Commands.{DaemonMessage}
use silta.Transfer.Send.{Piece, send}

abbrev pub wrap : Piece → DaemonMessage
wrap (Piece.header h) = DaemonMessage.file h
wrap (Piece.chunk c) = DaemonMessage.chunk c
wrap (Piece.end e) = DaemonMessage.file_end e

abbrev pub header_of : Attachment → FileHeader
header_of a = record { transfer = a.transfer; name = a.name; mime = a.mime; size = a.size }

-- the lines written, and whether every write succeeded
abbrev pub Written : Type 0
Written = List DaemonMessage × Bool

module _ (accepts : ℕ → Bool) where
  unfoldable pub write_line : List DaemonMessage → DaemonMessage → Written
  write_line lines message =
      if accepts (length lines) then (lines ++ message ∷ [], true) else (lines, false)

  -- the lines one after the other, up to the first that fails
  unfoldable pub write_pieces : List DaemonMessage → List Piece → Written
  unfolding write_line
  write_pieces lines [] = (lines, true)
  write_pieces lines (piece ∷ pieces) =
      let (lines', written) = write_line lines (wrap piece) in
      elim written [ true ↦ write_pieces lines' pieces | false ↦ (lines', false) ]

  module _ (encode : List ℕ → String) (reads : String → Option (List (List ℕ))) where
    -- an attachment that is gone is passed over
    abbrev pub write_attachment : List DaemonMessage → Attachment → Option (List (List ℕ)) → Written
    write_attachment lines attachment none = (lines, true)
    write_attachment lines attachment (some file) =
        write_pieces lines (send encode (header_of attachment) file)

    unfoldable pub write_attachments : List DaemonMessage → List Attachment → Written
    unfolding write_pieces send
    write_attachments lines [] = (lines, true)
    write_attachments lines (attachment ∷ rest) =
        let (lines', written) = write_attachment lines attachment (reads attachment.transfer) in
        elim written [ true ↦ write_attachments lines' rest | false ↦ (lines', false) ]

    unfoldable pub write_event : List DaemonMessage → Event → Written
    unfolding write_attachments write_line
    write_event lines event =
        let (lines', written) = write_attachments lines event.attachments in
        elim written [
          | true ↦ write_line lines' (DaemonMessage.event event)
          | false ↦ (lines', false)
        ]

    abbrev pub write_message : List DaemonMessage → DaemonMessage → Written
    write_message lines (DaemonMessage.event event) = write_event lines event
    write_message lines other = write_line lines other

    -- the messages of the queue, up to the first write that fails; the lines written
    unfoldable pub write_loop : List DaemonMessage → List DaemonMessage → List DaemonMessage
    unfolding write_event write_line
    write_loop lines [] = lines
    write_loop lines (message ∷ outbound) =
        let (lines', written) = write_message lines message in
        elim written [ true ↦ write_loop lines' outbound | false ↦ lines' ]
