-- ===== src/Common/Names.antt =====
-- Rust's `HashSet<&str>` as a list without repetitions, and `contains` on a list of strings.
use Prim.Native.String.{String}
use mathlib.Core.Path.{◌≡◌, subst}
use mathlib.Core.Bool.{Bool, true, false, ◌||◌}
use mathlib.Core.Logic.{inl, inr}
use mathlib.Core.List.{List, [], ◌∷◌}
use native.Mathlib.Omega.{arith}
use text.Mathlib.Text.{◌==◌}
use text.Mathlib.TextEquality.{eq_iff}
use silta.Common.Tests.{if◌then◌else◌, Bool-cases}
use silta.Common.Lists.{All}

unfoldable pub contains : List String → String → Bool
contains [] a = false
contains (x ∷ xs) a = x == a || contains xs a

-- into a set: an element that is there stays as it is
unfoldable pub put : String → List String → List String
unfolding contains
put a xs = if contains xs a then xs else a ∷ xs

pub contains-put :
    (a b : String) (xs : List String) → contains (put a xs) b ≡ (a == b || contains xs b)
unfolding put contains
contains-put a b xs = ground (arith, eq_iff a b)

-- what `contains` finds, every predicate on all elements holds of
pub All-contains {ℓ} :
    (P : String → Type ℓ) (xs : List String) (a : String) → All P xs → contains xs a ≡ true → P a
unfolding contains
All-contains P [] a h c = cc
All-contains P (x ∷ xs) a h c = elim (Bool-cases (x == a)) [
  | inl e ↦ subst P ((eq_iff x a).0 e) h.0
  | inr ne ↦ All-contains P xs a h.1 (ground arith)
]
