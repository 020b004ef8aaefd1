-- ===== src/Transfer/Sizes.antt =====
-- The bounds of what the transfers of a connection write, whatever the other side sends.
use silta.Common.{
  ℕ, ◌+◌, ◌≤◌, ◌<◌, ◌==◌, ◌^◌, ◌≡◌, refl, max, Bool, true, false, Option, none, some, List, [], ◌∷◌,
  String, length, All, arith, if◌then◌else◌, ltb, Bool-cases, inl, inr, Option-cases, is_some,
}
use silta.Common.Assoc.{
  lookup, insert, remove, AllValues, insert-AllValues, remove-AllValues, lookup-AllValues,
}
use silta.Protocol.{FileHeader, FileChunk, FileEnd}
use silta.Transfer.Writes.{IsSmall, opened-All, write-All, length-take-le, opened-start}
use silta.Transfer.Ops.{Op, step, steps, IsShort, decoded_length}
use silta.Transfer.Disk.{Disk, take, open_truncate, opened, write, remove_file}
use silta.Transfer.Receiver.{
  Receiver, Open, TransferError, path_for, begin, chunk, end, abort_all, discard, discard_all, keys,
  take_chunk, write_chunk, end_of, count_in,
}

-- a transfer in progress has written what it received, within what it declared and the limit
abbrev pub Fits : ℕ → Open → Type 0
Fits max at =
    (at.file.position ≡ at.received) × (at.received ≤ at.header.size) × (at.header.size ≤ max)

pub record IsBounded (max : ℕ) (r : Receiver) (d : Disk) : Type 0 where
  pub cap : r.max_bytes ≡ max
  pub transfers : AllValues (Fits max) r.in_progress
  pub files : All (IsSmall max) d.files

put-IsBounded :
    (limit : ℕ) (r : Receiver) (d : Disk) (transfer : String) (at : Open)
    → r.max_bytes ≡ limit
    → AllValues (Fits limit) r.in_progress
    → All (IsSmall limit) d.files
    → Fits limit at
    → IsBounded limit (record r { in_progress = insert transfer at r.in_progress }) d
put-IsBounded limit r d transfer at same all small fits = record {
  cap = same;
  transfers = insert-AllValues (Fits limit) transfer at r.in_progress all fits;
  files = small;
}

module _ (extension : String → Option String) (decode : String → Option (List ℕ)) where
  begin-IsBounded :
      (limit : ℕ) (r : Receiver) (d : Disk) (header : FileHeader) (opens : Bool)
      → IsBounded limit r d
      → IsBounded limit
          (step extension decode r d (Op.begins header opens)).0
          (step extension decode r d (Op.begins header opens)).1
  unfolding step begin open_truncate
  begin-IsBounded limit r d header opens b =
      elim (Bool-cases (is_some (lookup header.transfer r.in_progress))) [
        | inl there ↦ rw there b
        | inr away ↦ rw away (elim (Bool-cases (ltb r.max_bytes header.size)) [
          | inl large ↦ rw large b
          | inr small ↦ rw small (into opens (ground (arith, b.cap)))
        ])
      ]
    where
      path : String
      path = path_for extension decode r.prefix header

      into :
          (opens : Bool)
          → header.size ≤ limit
          → let opening = opened path d (lookup path d.names) in
            let entry : Open = record {
              header = header;
              file = opening.1;
              path = path;
              received = 0;
            } in
            let result : Receiver × Disk × Option TransferError =
              if opens
              then (
                record r { in_progress = insert header.transfer entry r.in_progress },
                opening.0,
                none,
              )
              else (r, d, some TransferError.io) in
            IsBounded limit result.0 result.1
      into false small = b
      into true small =
          put-IsBounded limit r (opened path d (lookup path d.names)).0 header.transfer _ b.cap
            b.transfers (opened-All limit path d (lookup path d.names) b.files)
            (opened-start path d (lookup path d.names), omega arith, small)

  discard-IsBounded :
      (limit : ℕ) (r : Receiver) (d : Disk) (transfer : String)
      → IsBounded limit r d
      → IsBounded limit (discard r d transfer).0 (discard r d transfer).1
  unfolding discard remove_file
  discard-IsBounded limit r d transfer b = elim (Option-cases (lookup transfer r.in_progress)) [
    | inl gone ↦ rw gone b
    | inr (at, found) ↦ rw found (record {
      cap = b.cap;
      transfers = remove-AllValues (Fits limit) transfer r.in_progress b.transfers;
      files = b.files;
    })
  ]

  write_chunk-IsBounded :
      (limit : ℕ) (r : Receiver) (d : Disk) (transfer : String) (at : Open) (bytes : List ℕ)
      (wrote : Option ℕ)
      → IsBounded limit r d
      → Fits limit at
      → limit + length bytes < 2 ^ 64
      → count_in at.received bytes ≤ at.header.size
      → IsBounded limit
          (write_chunk extension decode r d transfer at bytes wrote).0
          (write_chunk extension decode r d transfer at bytes wrote).1
  unfolding write
  write_chunk-IsBounded limit r d transfer at bytes none b fits short within =
      put-IsBounded limit r (write at.file bytes d).0 transfer _ b.cap b.transfers
        (write-All limit at.file bytes d b.files
          (omega (arith, fits.0, fits.1, fits.2, short, within)))
        (omega (arith, fits.0, fits.1, fits.2, short), within, fits.2)
  write_chunk-IsBounded limit r d transfer at bytes (some n) b fits short within =
      discard-IsBounded limit r (write at.file (take n bytes) d).0 transfer (record {
        cap = b.cap;
        transfers = b.transfers;
        files =
            write-All limit at.file (take n bytes) d b.files
              (omega (arith, fits.0, fits.1, fits.2, short, within, length-take-le n bytes));
      })

  take_chunk-IsBounded :
      (limit : ℕ) (r : Receiver) (d : Disk) (transfer : String) (at : Open)
      (bytes : Option (List ℕ)) (wrote : Option ℕ)
      → IsBounded limit r d
      → Fits limit at
      → limit + decoded_length extension decode bytes < 2 ^ 64
      → IsBounded limit
          (take_chunk extension decode r d transfer at bytes wrote).0
          (take_chunk extension decode r d transfer at bytes wrote).1
  take_chunk-IsBounded limit r d transfer at none wrote b fits short =
      discard-IsBounded limit r d transfer b
  take_chunk-IsBounded limit r d transfer at (some bytes) wrote b fits short =
      elim (Bool-cases (ltb at.header.size (count_in at.received bytes))) [
        | inl over ↦ rw over (discard-IsBounded limit r d transfer b)
        | inr within ↦
            rw within
              (write_chunk-IsBounded limit r d transfer at bytes wrote b fits short (ground arith))
      ]

  chunk-IsBounded :
      (limit : ℕ) (r : Receiver) (d : Disk) (c : FileChunk) (wrote : Option ℕ)
      → IsBounded limit r d
      → limit + decoded_length extension decode (decode c.data_base64) < 2 ^ 64
      → IsBounded limit
          (chunk extension decode r d c wrote).0
          (chunk extension decode r d c wrote).1
  unfolding chunk
  chunk-IsBounded limit r d c wrote b short =
      elim (Option-cases (lookup c.transfer r.in_progress)) [
        | inl gone ↦ rw gone b
        | inr (at, found) ↦ rw found (
            take_chunk-IsBounded limit r d c.transfer at (decode c.data_base64) wrote b
              (lookup-AllValues (Fits limit) c.transfer at r.in_progress b.transfers found) short)
      ]

  end-IsBounded :
      (limit : ℕ) (r : Receiver) (d : Disk) (e : FileEnd) (flushed : Bool)
      → IsBounded limit r d
      → IsBounded limit (end r d e flushed).0 (end r d e flushed).1
  unfolding end remove_file
  end-IsBounded limit r d e flushed b = go (lookup e.transfer r.in_progress) flushed
    where
      left :
          (d' : Disk)
          → d'.files ≡ d.files
          → IsBounded limit (record r { in_progress = remove e.transfer r.in_progress }) d'
      left d' same = record {
        cap = b.cap;
        transfers = remove-AllValues (Fits limit) e.transfer r.in_progress b.transfers;
        files = rw same b.files;
      }

      go :
          (found : Option Open) (flushed : Bool)
          → IsBounded limit (end_of r d e found flushed).0 (end_of r d e found flushed).1
      go none flushed = b
      go (some at) false = left (remove_file at.path d) refl
      go (some at) true = elim (Bool-cases (at.received == at.header.size)) [
        | inl whole ↦ rw whole (left d refl)
        | inr short ↦ rw short (left (remove_file at.path d) refl)
      ]

  discard_all-IsBounded :
      (limit : ℕ) (transfers : List String) (r : Receiver) (d : Disk)
      → IsBounded limit r d
      → IsBounded limit (discard_all transfers r d).0 (discard_all transfers r d).1
  unfolding discard_all
  discard_all-IsBounded limit [] r d b = b
  discard_all-IsBounded limit (transfer ∷ rest) r d b =
      discard_all-IsBounded limit rest (discard r d transfer).0 (discard r d transfer).1
        (discard-IsBounded limit r d transfer b)

  step-IsBounded :
      (limit : ℕ) (r : Receiver) (d : Disk) (op : Op)
      → IsBounded limit r d
      → IsShort extension decode limit op
      → IsBounded limit (step extension decode r d op).0 (step extension decode r d op).1
  unfolding step abort_all
  step-IsBounded limit r d (Op.begins header opens) b short =
      unfold step in begin-IsBounded limit r d header opens b
  step-IsBounded limit r d (Op.brings c wrote) b short = chunk-IsBounded limit r d c wrote b short
  step-IsBounded limit r d (Op.ends e flushed) b short = end-IsBounded limit r d e flushed b
  step-IsBounded limit r d Op.aborts b short =
      discard_all-IsBounded limit (keys r.in_progress) r d b

  -- Whatever comes on a connection, in whatever order, and whatever writes fail: no transfer in
  -- progress has received more than it declared or declared more than the limit, each has written
  -- as many bytes as it received, and no file is larger than the limit. The chunks are so short
  -- that the count does not wrap around.
  pub steps-IsBounded :
      (limit : ℕ) (r : Receiver) (d : Disk) (ops : List Op)
      → IsBounded limit r d
      → All (IsShort extension decode limit) ops
      → IsBounded limit (steps extension decode r d ops).0 (steps extension decode r d ops).1
  unfolding steps
  steps-IsBounded limit r d [] b short = b
  steps-IsBounded limit r d (op ∷ ops) b short =
      steps-IsBounded limit (step extension decode r d op).0 (step extension decode r d op).1 ops
        (step-IsBounded limit r d op b short.0) short.1
