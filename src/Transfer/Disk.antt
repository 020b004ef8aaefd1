-- ===== src/Transfer/Disk.antt =====
-- What crates/silta/src/transfer.rs uses of the file system: files by number, a directory of
-- names for them, and handles that write at their own position. A name stands for the path in
-- the receiver's directory: no name holds a slash.
use silta.Common.{ℕ, zero, suc, ◌+◌, Option, none, some, List, [], ◌∷◌, ◌++◌, String, length, drop}
use silta.Common.Assoc.{Assoc, lookup, insert, remove}

pub record Disk : Type 0 where
  pub files : List (List ℕ)
  pub names : Assoc ℕ

pub record Handle : Type 0 where
  pub file : ℕ
  pub position : ℕ

module _ {ℓ} {A : Type ℓ} where
  abbrev pub set_at : ℕ → A → List A → List A
  set_at i x [] = []
  set_at zero x (y ∷ ys) = x ∷ ys
  set_at (suc i) x (y ∷ ys) = y ∷ set_at i x ys

  abbrev pub take : ℕ → List A → List A
  take zero xs = []
  take (suc n) [] = []
  take (suc n) (x ∷ xs) = x ∷ take n xs

  abbrev pub at_or_nil : ℕ → List (List A) → List A
  at_or_nil i [] = []
  at_or_nil zero (x ∷ xs) = x
  at_or_nil (suc i) (x ∷ xs) = at_or_nil i xs

-- bytes written at a position over what is there; a gap before it is filled with zeros
abbrev pub overwrite : List ℕ → ℕ → List ℕ → List ℕ
overwrite content zero bytes = bytes ++ drop (length bytes) content
overwrite [] (suc at) bytes = 0 ∷ overwrite [] at bytes
overwrite (b ∷ content) (suc at) bytes = b ∷ overwrite content at bytes

abbrev pub opened : String → Disk → Option ℕ → Disk × Handle
opened name d (some file) =
    (record d { files = set_at file [] d.files }, record { file = file; position = 0 })
opened name d none = (
  record { files = d.files ++ [] ∷ []; names = insert name (length d.files) d.names },
  record { file = length d.files; position = 0 },
)

-- `OpenOptions::new().write(true).create(true).truncate(true).open(…)`
unfoldable pub open_truncate : String → Disk → Disk × Handle
open_truncate name d = opened name d (lookup name d.names)

unfoldable pub write : Handle → List ℕ → Disk → Disk × Handle
write h bytes d = (
  record d {
    files = set_at h.file (overwrite (at_or_nil h.file d.files) h.position bytes) d.files;
  },
  record h { position = h.position + length bytes },
)

-- the name goes; the file stays for the handles that have it open
unfoldable pub remove_file : String → Disk → Disk
remove_file name d = record d { names = remove name d.names }

abbrev pub content_of : Disk → Option ℕ → Option (List ℕ)
content_of d none = none
content_of d (some file) = some (at_or_nil file d.files)

-- what a reader of the path finds
unfoldable pub content : String → Disk → Option (List ℕ)
content name d = content_of d (lookup name d.names)
