-- ===== src/Text/Solid.antt =====
-- What of a text is not white space, and that splitting and trimming keep it.
use Prim.Native.Char.{Char, code}
use silta.Common.{
  ℕ, ◌≡◌, refl, sym, ap, ◌∙◌, inl, inr, Bool, true, false, List, [], ◌∷◌, ◌++◌, is_empty, arith,
  Bool-cases, if◌then◌else◌,
}
use silta.Transfer.Text.{is_whitespace}
use silta.Text.Lines.{
  Text, is_newline, is_line_end, trim_start, trim_end, unless_last, is_blank, in_front,
  split_inclusive, split,
}
use silta.Text.Chunks.{if_any}

-- what of a text is not white space
unfoldable pub solid : Text → Text
solid [] = []
solid (c ∷ s) = let rest = solid s in if is_whitespace (code c) then rest else c ∷ rest

unfoldable pub solids : List Text → Text
unfolding solid
solids [] = []
solids (s ∷ rest) = solid s ++ solids rest

pub append_assoc : (xs ys zs : Text) → (xs ++ ys) ++ zs ≡ xs ++ (ys ++ zs)
append_assoc [] ys zs = refl
append_assoc (x ∷ xs) ys zs = ap (λ (l : Text). x ∷ l) (append_assoc xs ys zs)

pub append_nil : (xs : Text) → xs ++ [] ≡ xs
append_nil [] = refl
append_nil (x ∷ xs) = ap (λ (l : Text). x ∷ l) (append_nil xs)

pub solid-append : (s t : Text) → solid (s ++ t) ≡ solid s ++ solid t
unfolding solid
solid-append [] t = refl
solid-append (c ∷ s) t = elim (Bool-cases (is_whitespace (code c))) [
  | inl blank ↦ rw blank (solid-append s t)
  | inr kept ↦ rw kept (ap (λ (l : Text). c ∷ l) (solid-append s t))
]

pub solids-append : (xs ys : List Text) → solids (xs ++ ys) ≡ solids xs ++ solids ys
unfolding solids
solids-append [] ys = refl
solids-append (s ∷ xs) ys =
    ap (λ l. solid s ++ l) (solids-append xs ys)
    ∙ sym (append_assoc (solid s) (solids xs) (solids ys))

abbrev pub IsWhite : (ℕ → Bool) → Type 0
IsWhite p = (c : ℕ) → p c ≡ true → is_whitespace c ≡ true

pub solid-trim_start : (p : ℕ → Bool) (s : Text) → IsWhite p → solid (trim_start p s) ≡ solid s
unfolding trim_start solid
solid-trim_start p [] white = refl
solid-trim_start p (c ∷ s) white = elim (Bool-cases (p (code c))) [
  | inl gone ↦ rw gone (rw (white (code c) gone) (solid-trim_start p s white))
  | inr kept ↦ rw kept refl
]

pub solid-unless_last :
    (drop : Bool) (c : Char) (s : Text)
    → (drop ≡ true → is_whitespace (code c) ≡ true)
    → solid (unless_last drop c s) ≡ solid (c ∷ s)
unfolding solid
solid-unless_last true c [] white = rw (white refl) refl
solid-unless_last false c [] white = refl
solid-unless_last true c (d ∷ s) white = refl
solid-unless_last false c (d ∷ s) white = refl

pub solid-trim_end : (p : ℕ → Bool) (s : Text) → IsWhite p → solid (trim_end p s) ≡ solid s
unfolding trim_end solid
solid-trim_end p [] white = refl
solid-trim_end p (c ∷ s) white =
    solid-unless_last (p (code c)) c (trim_end p s) (white (code c))
    ∙ ap (λ l. if is_whitespace (code c) then l else c ∷ l) (solid-trim_end p s white)

pub itself : IsWhite is_whitespace
itself c h = h

pub line_ends : IsWhite is_line_end
line_ends c h = ground arith

pub solid-is_empty : (t : Text) → is_empty t ≡ true → solid t ≡ []
unfolding solid
solid-is_empty [] e = refl
solid-is_empty (c ∷ t) e = absurd (ground arith)

pub solid-is_blank : (s : Text) → is_blank s ≡ true → solid s ≡ []
solid-is_blank s h =
    sym (solid-trim_start is_whitespace s itself)
    ∙ sym (solid-trim_end is_whitespace (trim_start is_whitespace s) itself)
    ∙ solid-is_empty (trim_end is_whitespace (trim_start is_whitespace s)) h

pub solids-in_front :
    (c : Char) (lines : List Text) → solids (in_front c lines) ≡ solid (c ∷ []) ++ solids lines
unfolding solids solid
solids-in_front c [] = refl
solids-in_front c (line ∷ lines) = elim (Bool-cases (is_whitespace (code c))) [
  | inl blank ↦ rw blank refl
  | inr kept ↦ rw kept refl
]

pub solid-cons : (c : Char) (s : Text) → solid (c ∷ s) ≡ solid (c ∷ []) ++ solid s
solid-cons c s = solid-append (c ∷ []) s

newline-white : (c : Char) → is_newline (code c) ≡ true → is_whitespace (code c) ≡ true
newline-white c h = ground arith

pub solid-white : (c : Char) (s : Text) → is_whitespace (code c) ≡ true → solid (c ∷ s) ≡ solid s
unfolding solid
solid-white c s white = rw white refl

pub solid-nil : solid [] ≡ []
unfolding solid
solid-nil = refl

pub solids-split_inclusive : (s : Text) → solids (split_inclusive s) ≡ solid s
unfolding split_inclusive solids
solids-split_inclusive [] = sym solid-nil
solids-split_inclusive (c ∷ s) =
    let rest = ap (λ l. solid (c ∷ []) ++ l) (solids-split_inclusive s) ∙ sym (solid-cons c s) in
    elim (Bool-cases (is_newline (code c))) [
      | inl end ↦ rw end rest
      | inr other ↦ rw other (solids-in_front c (split_inclusive s) ∙ rest)
    ]

pub solids-split : (s : Text) → solids (split s) ≡ solid s
unfolding split solids
solids-split [] = ap (λ l. l ++ []) solid-nil ∙ sym solid-nil
solids-split (c ∷ s) = elim (Bool-cases (is_newline (code c))) [
  | inl end ↦ rw end (
      ap (λ l. l ++ solids (split s)) solid-nil
      ∙ solids-split s
      ∙ sym (solid-white c s (newline-white c end)))
  | inr other ↦ rw other (
      solids-in_front c (split s)
      ∙ ap (λ l. solid (c ∷ []) ++ l) (solids-split s)
      ∙ sym (solid-cons c s))
]

pub solids-if_any : (s : Text) → solids (if_any s) ≡ solid s
unfolding solids
solids-if_any [] = sym solid-nil
solids-if_any (c ∷ s) = append_nil (solid (c ∷ s))
