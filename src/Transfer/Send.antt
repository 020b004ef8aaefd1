-- ===== src/Transfer/Send.antt =====
-- `send` of crates/silta/src/transfer.rs. The file is what each `read` of it has ready, none of
-- that empty; the end of the list is its end. The encoding to base64 is a parameter.
use silta.Common.{
  ◌*◌, ℕ, zero, suc, ◌-◌, List, [], ◌∷◌, ◌++◌, String, length, drop, ltb, if◌then◌else◌,
}
use silta.Protocol.{FileHeader, FileChunk, FileEnd}
use silta.Transfer.Disk.{take}

-- Bytes of file per `chunk` line
abbrev pub chunk_bytes : ℕ
chunk_bytes = 1024 * 1024

-- one line of a transfer
pub data Piece : Type 0 where
  header : FileHeader → Piece
  chunk : FileChunk → Piece
  end : FileEnd → Piece

-- what is left of a read that filled the buffer
abbrev pub rest_of : List ℕ → List (List ℕ) → List (List ℕ)
rest_of [] file = file
rest_of (b ∷ bytes) file = (b ∷ bytes) ∷ file

-- the reads that fill the rest of the buffer, and the file after them
unfoldable pub read_chunk : ℕ → List (List ℕ) → List ℕ × List (List ℕ)
read_chunk zero file = ([], file)
read_chunk (suc room) [] = ([], [])
read_chunk (suc room) (ready ∷ file) =
    let (more, left) = read_chunk (suc room - length ready) file in
    if ltb (length ready) (suc room)
    then (ready ++ more, left)
    else (take (suc room) ready, rest_of (drop (suc room) ready) file)

unfoldable pub concat : List (List ℕ) → List ℕ
concat [] = []
concat (bytes ∷ rest) = bytes ++ concat rest

module _ (encode : List ℕ → String) where
  abbrev pub piece_of : String → List ℕ → Piece
  piece_of transfer bytes = Piece.chunk (record { transfer = transfer; data_base64 = encode bytes })

  abbrev pub chunk_then : String → List ℕ → List Piece → List Piece
  chunk_then transfer [] later = []
  chunk_then transfer (b ∷ bytes) later = piece_of transfer (b ∷ bytes) ∷ later

  -- the loop, on fuel: each round reads a byte at least
  unfoldable pub chunks : ℕ → String → List (List ℕ) → List Piece
  chunks zero transfer file = []
  chunks (suc fuel) transfer file =
      let (bytes, left) = read_chunk chunk_bytes file in
      let later = chunks fuel transfer left in chunk_then transfer bytes later

  unfoldable pub send : FileHeader → List (List ℕ) → List Piece
  unfolding concat
  send head file =
      Piece.header head
      ∷ (chunks (suc (length (concat file))) head.transfer file
          ++ Piece.end (record { transfer = head.transfer }) ∷ [])
