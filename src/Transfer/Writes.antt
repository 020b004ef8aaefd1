-- ===== src/Transfer/Writes.antt =====
-- What opening and writing do to the sizes of the files on the disk.
use silta.Common.{
  ℕ, zero, suc, ◌+◌, ◌≤◌, ◌≡◌, refl, max, Option, none, some, List, [], ◌∷◌, String, length, drop,
  length-append, length-drop, All, All-append, arith,
}
use silta.Transfer.Disk.{Disk, Handle, take, set_at, at_or_nil, overwrite, opened, write}

abbrev pub IsSmall : ℕ → List ℕ → Type 0
IsSmall max bytes = length bytes ≤ max

pub length-overwrite :
    (content : List ℕ) (at : ℕ) (bytes : List ℕ)
    → length (overwrite content at bytes) ≡ max (length content) (at + length bytes)
length-overwrite content zero bytes =
    omega
      (arith, length-append bytes (drop (length bytes) content), length-drop (length bytes) content)
length-overwrite [] (suc at) bytes = omega (arith, length-overwrite [] at bytes)
length-overwrite (b ∷ content) (suc at) bytes = omega (arith, length-overwrite content at bytes)

pub length-take-le : (n : ℕ) (bytes : List ℕ) → length (take n bytes) ≤ length bytes
length-take-le zero bytes = omega arith
length-take-le (suc n) [] = omega arith
length-take-le (suc n) (b ∷ bytes) = omega (arith, length-take-le n bytes)

pub set_at-All :
    (max i : ℕ) (x : List ℕ) (files : List (List ℕ))
    → All (IsSmall max) files
    → IsSmall max x
    → All (IsSmall max) (set_at i x files)
set_at-All max i x [] all small = tt
set_at-All max zero x (y ∷ files) all small = (small, all.1)
set_at-All max (suc i) x (y ∷ files) all small = (all.0, set_at-All max i x files all.1 small)

pub at_or_nil-All :
    (max i : ℕ) (files : List (List ℕ)) → All (IsSmall max) files → IsSmall max (at_or_nil i files)
at_or_nil-All max i [] all = omega arith
at_or_nil-All max zero (y ∷ files) all = all.0
at_or_nil-All max (suc i) (y ∷ files) all = at_or_nil-All max i files all.1

pub opened-All :
    (max : ℕ) (name : String) (d : Disk) (file : Option ℕ)
    → All (IsSmall max) d.files
    → All (IsSmall max) (opened name d file).0.files
opened-All max name d none all = All-append (IsSmall max) d.files ([] ∷ []) all (omega arith, tt)
opened-All max name d (some file) all = set_at-All max file [] d.files all (omega arith)

pub write-All :
    (max : ℕ) (h : Handle) (bytes : List ℕ) (d : Disk)
    → All (IsSmall max) d.files
    → h.position + length bytes ≤ max
    → All (IsSmall max) (write h bytes d).0.files
unfolding write
write-All limit h bytes d all room = set_at-All limit h.file _ d.files all (
    omega (
      arith,
      room,
      length-overwrite (at_or_nil h.file d.files) h.position bytes,
      at_or_nil-All limit h.file d.files all,
    ))

pub opened-start :
    (name : String) (d : Disk) (file : Option ℕ) → (opened name d file).1.position ≡ 0
opened-start name d none = refl
opened-start name d (some file) = refl
