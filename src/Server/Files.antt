-- ===== src/Server/Files.antt =====
-- A file that comes in over a connection, line by line, where the file system does not fail.
use silta.Common.{ℕ, ◌<◌, ◌≡◌, refl, true, Option, none, some, List, [], ◌∷◌, ◌++◌, String, length}
use silta.Common.Assoc.{lookup}
use silta.Protocol.{FileHeader}
use silta.Transfer.Disk.{Disk, at_or_nil}
use silta.Transfer.Receiver.{Open}
use silta.Transfer.Send.{Piece}
use silta.Server.Connection.{Files, on_file, on_chunk, on_file_end}

module _ (extension : String → Option String) (decode : String → Option (List ℕ)) where
  unfoldable pub take_piece : Files → Disk → Piece → Files × Disk
  take_piece f d (Piece.header head) = on_file extension decode f d head true
  take_piece f d (Piece.chunk c) = on_chunk extension decode f d c none
  take_piece f d (Piece.end e) = on_file_end f d e true

  unfoldable pub take_pieces : Files → Disk → List Piece → Files × Disk
  take_pieces f d [] = (f, d)
  take_pieces f d (piece ∷ pieces) = let (f', d') = take_piece f d piece in take_pieces f' d' pieces

  pub take_pieces-append :
      (xs ys : List Piece) (f : Files) (d : Disk)
      → take_pieces f d (xs ++ ys) ≡ take_pieces (take_pieces f d xs).0 (take_pieces f d xs).1 ys
  unfolding take_pieces
  take_pieces-append [] ys f d = refl
  take_pieces-append (x ∷ xs) ys f d =
      take_pieces-append xs ys (take_piece f d x).0 (take_piece f d x).1

-- a transfer that has come as far as some bytes, and stands so on the disk
pub record Going (head : FileHeader) (path : String) (bytes : List ℕ) (f : Files) (d : Disk)
    : Type 0 where
  pub at : Open
  pub found : lookup head.transfer f.receiver.in_progress ≡ some at
  pub header : at.header ≡ head
  pub path_is : at.path ≡ path
  pub received : at.received ≡ length bytes
  pub position : at.file.position ≡ length bytes
  pub named : lookup path d.names ≡ some at.file.file
  pub there : at.file.file < length d.files
  pub written : at_or_nil at.file.file d.files ≡ bytes
