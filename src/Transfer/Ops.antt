-- ===== src/Transfer/Ops.antt =====
-- What can come on a connection that sends files, one after the other.
use silta.Common.{ℕ, ◌+◌, ◌<◌, ◌^◌, max, Bool, Option, none, some, List, [], ◌∷◌, String, length}
use silta.Protocol.{FileHeader, FileChunk, FileEnd}
use silta.Transfer.Disk.{Disk}
use silta.Transfer.Receiver.{Receiver, begin, chunk, end, abort_all}

-- what can come on a connection, with what the file system answers to it
pub data Op : Type 0 where
  begins : FileHeader → Bool → Op
  brings : FileChunk → Option ℕ → Op
  ends : FileEnd → Bool → Op
  aborts : Op

module _ (extension : String → Option String) (decode : String → Option (List ℕ)) where
  unfoldable pub step : Receiver → Disk → Op → Receiver × Disk
  step r d (Op.begins header opens) =
      let (r', d', e) = begin extension decode r d header opens in (r', d')
  step r d (Op.brings c wrote) = let (r', d', e) = chunk extension decode r d c wrote in (r', d')
  step r d (Op.ends e flushed) = let (r', d', done) = end r d e flushed in (r', d')
  step r d Op.aborts = abort_all r d

  unfoldable pub steps : Receiver → Disk → List Op → Receiver × Disk
  steps r d [] = (r, d)
  steps r d (op ∷ ops) = let (r', d') = step r d op in steps r' d' ops

  abbrev pub decoded_length : Option (List ℕ) → ℕ
  decoded_length none = 0
  decoded_length (some bytes) = length bytes

  -- The limit on lines keeps a chunk far from the end of a `u64`.
  abbrev pub IsShort : ℕ → Op → Type 0
  IsShort max (Op.brings c wrote) = max + decoded_length (decode c.data_base64) < 2 ^ 64
  IsShort max (Op.begins header opens) = Unit
  IsShort max (Op.ends e flushed) = Unit
  IsShort max Op.aborts = Unit
