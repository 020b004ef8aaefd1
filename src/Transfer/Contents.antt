-- ===== src/Transfer/Contents.antt =====
-- What is read back from the disk after opening and writing.
use silta.Common.{
  ℕ, zero, suc, ◌<◌, ◌≡◌, refl, ap, Option, none, some, List, [], ◌∷◌, ◌++◌, String, length, drop,
  length-append, arith,
}
use silta.Common.Assoc.{lookup, AllValues, lookup-AllValues, lookup-insert_own}
use silta.Transfer.Disk.{Disk, at_or_nil, set_at, overwrite, opened}
use silta.Transfer.Reading.{append_nil}

pub at-set_at :
    (i : ℕ) (x : List ℕ) (files : List (List ℕ))
    → i < length files
    → at_or_nil i (set_at i x files) ≡ x
at-set_at i x [] h = absurd (omega (arith, h))
at-set_at zero x (y ∷ files) h = refl
at-set_at (suc i) x (y ∷ files) h = at-set_at i x files (omega (arith, h))

pub length-set_at :
    (i : ℕ) (x : List ℕ) (files : List (List ℕ)) → length (set_at i x files) ≡ length files
length-set_at i x [] = refl
length-set_at zero x (y ∷ files) = refl
length-set_at (suc i) x (y ∷ files) = omega (arith, length-set_at i x files)

at-new : (files : List (List ℕ)) → at_or_nil (length files) (files ++ [] ∷ []) ≡ []
at-new [] = refl
at-new (y ∷ files) = at-new files

drop_nil : (n : ℕ) → drop {A = ℕ} n [] ≡ []
drop_nil zero = refl
drop_nil (suc n) = refl

-- a write at the end appends
pub overwrite-end : (bytes more : List ℕ) → overwrite bytes (length bytes) more ≡ bytes ++ more
overwrite-end [] more = rw (drop_nil (length more)) (append_nil more)
overwrite-end (b ∷ bytes) more = ap (λ (l : List ℕ). b ∷ l) (overwrite-end bytes more)

-- a name that the disk has is that of a file
abbrev pub IsWhole : Disk → Type 0
IsWhole d = AllValues (λ (i : ℕ). i < length d.files) d.names

-- the file that a name was opened for is there, is that name's, and is empty
pub opened-empty :
    (name : String) (d : Disk) (file : Option ℕ)
    → IsWhole d
    → lookup name d.names ≡ file
    → let (d', h) = opened name d file in
      (lookup name d'.names ≡ some h.file)
      × (h.file < length d'.files)
      × (at_or_nil h.file d'.files ≡ [])
opened-empty name d none whole e = (
  lookup-insert_own name (length d.files) d.names,
  omega (arith, length-append d.files ([] ∷ [])),
  at-new d.files,
)
opened-empty name d (some i) whole e =
    let there = lookup-AllValues (λ (i : ℕ). i < length d.files) name i d.names whole e in
    (e, omega (arith, there, length-set_at i [] d.files), at-set_at i [] d.files there)
