-- ===== src/Common/Assoc.antt =====
-- Rust's `HashMap` with string keys as an association list. The program never depends on the
-- order of its entries; where it walks the keys it sorts them first.
use Prim.Native.String.{String}
use mathlib.Core.Path.{◌≡◌, refl, subst}
use mathlib.Core.Logic.{inl, inr}
use mathlib.Core.Option.{Option, none, some}
use mathlib.Core.List.{List, [], ◌∷◌}
use native.Mathlib.Omega.{arith}
use text.Mathlib.Text.{◌==◌}
use text.Mathlib.TextEquality.{eq_iff}
use text.Mathlib.TextPositions.{eq_refl}
use silta.Common.Tests.{if◌then◌else◌, Bool-cases}

abbrev pub Assoc {ℓ} : Type ℓ → Type ℓ
Assoc V = List (String × V)

module _ {ℓ} {V : Type ℓ} where
  unfoldable pub lookup : String → Assoc V → Option V
  lookup k [] = none
  lookup k ((j, v) ∷ m) = if j == k then some v else lookup k m

  -- the old value under the key, if any, is replaced
  unfoldable pub insert : String → V → Assoc V → Assoc V
  insert key new [] = (key, new) ∷ []
  insert key new ((at, old) ∷ rest) =
      let rest' = insert key new rest in if at == key then (key, new) ∷ rest else (at, old) ∷ rest'

  unfoldable pub remove : String → Assoc V → Assoc V
  remove k [] = []
  remove k ((j, v) ∷ m) = let rest = remove k m in if j == k then rest else (j, v) ∷ rest

  pub lookup-insert :
      (key at : String) (new : V) (m : Assoc V)
      → lookup at (insert key new m) ≡ (if key == at then some new else lookup at m)
  unfolding lookup insert
  lookup-insert key at new [] = refl
  lookup-insert key at new ((first, old) ∷ rest) =
      ground
        (arith, lookup-insert key at new rest, eq_iff key at, eq_iff first at, eq_iff first key)

  pub lookup-remove :
      (k j : String) (m : Assoc V) → lookup j (remove k m) ≡ (if k == j then none else lookup j m)
  unfolding lookup remove
  lookup-remove k j [] = ground arith
  lookup-remove k j ((i, w) ∷ m) =
      ground (arith, eq_iff k j, eq_iff i k, eq_iff i j, lookup-remove k j m)

  -- what was just put in is found
  pub lookup-insert_own : (k : String) (v : V) (m : Assoc V) → lookup k (insert k v m) ≡ some v
  lookup-insert_own k v m = ground (arith, eq_refl k, lookup-insert k k v m)

-- what holds of every value is kept by an insertion that meets it and by a removal, and holds of
-- what a look-up finds
module _ {ℓ κ} {V : Type ℓ} (P : V → Type κ) where
  unfoldable pub AllValues : Assoc V → Type κ
  AllValues [] = Unit
  AllValues ((key, value) ∷ rest) = P value × AllValues rest

  pub insert-AllValues :
      (key : String) (value : V) (m : Assoc V)
      → AllValues m
      → P value
      → AllValues (insert key value m)
  unfolding AllValues insert
  insert-AllValues key value [] all p = (p, tt)
  insert-AllValues key value ((at, old) ∷ rest) all p = elim (Bool-cases (at == key)) [
    | inl same ↦ rw same (p, all.1)
    | inr other ↦ rw other (all.0, insert-AllValues key value rest all.1 p)
  ]

  pub remove-AllValues : (key : String) (m : Assoc V) → AllValues m → AllValues (remove key m)
  unfolding AllValues remove
  remove-AllValues key [] all = tt
  remove-AllValues key ((at, old) ∷ rest) all = elim (Bool-cases (at == key)) [
    | inl same ↦ rw same (remove-AllValues key rest all.1)
    | inr other ↦ rw other (all.0, remove-AllValues key rest all.1)
  ]

  pub lookup-AllValues :
      (key : String) (value : V) (m : Assoc V) → AllValues m → lookup key m ≡ some value → P value
  unfolding AllValues lookup
  lookup-AllValues key value [] all found = absurd (ground arith)
  lookup-AllValues key value ((at, old) ∷ rest) all found = elim (Bool-cases (at == key)) [
    | inl same ↦ subst P (ground arith) all.0
    | inr other ↦ lookup-AllValues key value rest all.1 (ground arith)
  ]

pub ruleset map_laws = (lookup-insert, lookup-remove)
