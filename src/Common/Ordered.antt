-- ===== src/Common/Ordered.antt =====
-- Rust's `BTreeSet<String>` as an ordered list without repetitions, and `sort` on strings.
use Prim.Native.Nat.{Ordering}
use Prim.Native.String.{String, compare}
use mathlib.Core.Path.{◌≡◌, refl}
use mathlib.Core.Logic.{◌↔◌}
use mathlib.Core.Bool.{true}
use mathlib.Core.List.{List, [], ◌∷◌}
use native.Mathlib.Omega.{arith}
use silta.Common.Lists.{is_empty}

-- into a set: an element that is there stays as it is
unfoldable pub add : String → List String → List String
add x [] = x ∷ []
add x (y ∷ ys) = elim (compare x y) [
  | Ordering.lt ↦ x ∷ y ∷ ys
  | Ordering.eq ↦ y ∷ ys
  | Ordering.gt ↦ y ∷ add x ys
]

unfoldable pub collect : List String → List String
unfolding add
collect [] = []
collect (x ∷ xs) = add x (collect xs)

-- `sort` keeps repetitions
unfoldable pub place : String → List String → List String
place x [] = x ∷ []
place x (y ∷ ys) = elim (compare x y) [ Ordering.gt ↦ y ∷ place x ys | _ ↦ x ∷ y ∷ ys ]

unfoldable pub sort : List String → List String
unfolding place
sort [] = []
sort (x ∷ xs) = place x (sort xs)

add-ne-empty : (x : String) (ys : List String) → is_empty (add x ys) ≡ true → ⊥
unfolding add
add-ne-empty x [] h = cc
add-ne-empty x (y ∷ ys) h = ground arith

pub is_empty-collect : (xs : List String) → (is_empty (collect xs) ≡ true) ↔ (xs ≡ [])
unfolding collect
is_empty-collect [] = (λ _. refl, λ _. refl)
is_empty-collect (x ∷ xs) = (λ h. absurd (add-ne-empty x (collect xs) h), λ e. cc)
