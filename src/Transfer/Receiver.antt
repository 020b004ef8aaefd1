-- ===== src/Transfer/Receiver.antt =====
-- `Receiver` (its field `open` is `in_progress` here) of crates/silta/src/transfer.rs: the transfers in progress on one connection, and
-- the files they are written to. The decoding of base64 is a parameter. Where the file system
-- may fail, an operation takes what it answers; the removal of a file is taken to succeed.
use silta.Common.{
  ℕ, ◌+◌, ◌%◌, ◌^◌, Bool, Option, none, some, List, [], ◌∷◌, String, length, ltb, ◌==◌, is_some,
  if◌then◌else◌,
}
use Prim.Native.String.{◌++◌}
use silta.Common.Assoc.{Assoc, lookup, insert, remove}
use silta.Protocol.{FileHeader, FileChunk, FileEnd}
use silta.Transfer.Names.{safe_id, safe_name}
use silta.Transfer.Disk.{Disk, Handle, take, open_truncate, write, remove_file}

pub data TransferError : Type 0 where
  unknown : String → TransferError
  duplicate : String → TransferError
  too_large : (size max : ℕ) → TransferError
  size_mismatch : (transfer : String) → (received declared : ℕ) → TransferError
  base64 : String → TransferError
  io : TransferError

pub record Received : Type 0 where
  pub header : FileHeader
  pub path : String

pub record Open : Type 0 where
  pub header : FileHeader
  pub file : Handle
  pub path : String
  pub received : ℕ

pub record Receiver : Type 0 where
  pub prefix : String
  pub max_bytes : ℕ
  pub in_progress : Assoc Open

unfoldable pub new : String → ℕ → Receiver
new prefix max_bytes = record { prefix = prefix; max_bytes = max_bytes; in_progress = [] }

-- what `end` answers
pub data Ended : Type 0 where
  whole : Received → Ended
  broken : TransferError → Ended

abbrev pub forget : Receiver → Disk → String → Option Open → Receiver × Disk
forget r d transfer none = (r, d)
forget r d transfer (some at) =
    (record r { in_progress = remove transfer r.in_progress }, remove_file at.path d)

unfoldable pub discard : Receiver → Disk → String → Receiver × Disk
discard r d transfer = forget r d transfer (lookup transfer r.in_progress)

unfoldable pub discard_all : List String → Receiver → Disk → Receiver × Disk
discard_all [] r d = (r, d)
discard_all (transfer ∷ rest) r d = let (r', d') = discard r d transfer in discard_all rest r' d'

abbrev pub keys : {V : Type 0} → Assoc V → List String
keys [] = []
keys ((k, v) ∷ m) = k ∷ keys m

unfoldable pub abort_all : Receiver → Disk → Receiver × Disk
abort_all r d = discard_all (keys r.in_progress) r d

-- `open.received + bytes.len() as u64`, in a release build
abbrev pub count_in : ℕ → List ℕ → ℕ
count_in received bytes = (received + length bytes) % 2 ^ 64

module _ (extension : String → Option String) (decode : String → Option (List ℕ)) where
  unfoldable pub path_for : String → FileHeader → String
  path_for prefix header =
      prefix ++ (safe_id header.transfer ++ ("-" ++ safe_name extension header.name header.mime))

  -- `opens`: the directory and the file can be made
  unfoldable pub begin :
      Receiver → Disk → FileHeader → Bool → Receiver × Disk × Option TransferError
  unfolding path_for
  begin r d header opens =
      let path = path_for r.prefix header in
      let (d', handle) = open_truncate path d in
      let entry : Open = record { header = header; file = handle; path = path; received = 0 } in
      if is_some (lookup header.transfer r.in_progress)
      then (r, d, some (TransferError.duplicate header.transfer))
      else if ltb r.max_bytes header.size
      then (r, d, some (TransferError.too_large header.size r.max_bytes))
      else if opens
      then (record r { in_progress = insert header.transfer entry r.in_progress }, d', none)
      else (r, d, some TransferError.io)

  abbrev pub failing :
      Receiver → Disk → String → TransferError → Receiver × Disk × Option TransferError
  failing r d transfer error = let (r', d') = discard r d transfer in (r', d', some error)

  -- `wrote`: none if all bytes were written, else how many were before the error
  abbrev pub write_chunk :
      Receiver → Disk → String → Open → List ℕ → Option ℕ → Receiver × Disk × Option TransferError
  write_chunk r d transfer at bytes none =
      let (d', handle) = write at.file bytes d in
      let entry : Open = record at { file = handle; received = count_in at.received bytes } in
      (record r { in_progress = insert transfer entry r.in_progress }, d', none)
  write_chunk r d transfer at bytes (some n) =
      failing r (write at.file (take n bytes) d).0 transfer TransferError.io

  abbrev pub take_chunk :
      Receiver
      → Disk
      → String
      → Open
      → Option (List ℕ)
      → Option ℕ
      → Receiver × Disk × Option TransferError
  take_chunk r d transfer at none wrote = failing r d transfer (TransferError.base64 transfer)
  take_chunk r d transfer at (some bytes) wrote =
      if ltb at.header.size (count_in at.received bytes)
      then failing r d transfer
          (TransferError.size_mismatch transfer (count_in at.received bytes) at.header.size)
      else write_chunk r d transfer at bytes wrote

  abbrev pub chunk_into :
      Receiver → Disk → FileChunk → Option Open → Option ℕ → Receiver × Disk × Option TransferError
  chunk_into r d c none wrote = (r, d, some (TransferError.unknown c.transfer))
  chunk_into r d c (some at) wrote = take_chunk r d c.transfer at (decode c.data_base64) wrote

  unfoldable pub chunk :
      Receiver → Disk → FileChunk → Option ℕ → Receiver × Disk × Option TransferError
  chunk r d c wrote = chunk_into r d c (lookup c.transfer r.in_progress) wrote

abbrev pub end_of : Receiver → Disk → FileEnd → Option Open → Bool → Receiver × Disk × Ended
end_of r d e none flushed = (r, d, Ended.broken (TransferError.unknown e.transfer))
end_of r d e (some at) flushed =
    let r' : Receiver = record r { in_progress = remove e.transfer r.in_progress } in
    let d' = remove_file at.path d in
    let received : Received = record { header = at.header; path = at.path } in
    if flushed
    then (if at.received == at.header.size then (r', d, Ended.whole received) else (
      r',
      d',
      Ended.broken (TransferError.size_mismatch e.transfer at.received at.header.size),
    ))
    else (r', d', Ended.broken TransferError.io)

-- `flushed`: the last bytes could be written
unfoldable pub end : Receiver → Disk → FileEnd → Bool → Receiver × Disk × Ended
end r d e flushed = end_of r d e (lookup e.transfer r.in_progress) flushed
