-- ===== src/Examples/Bytes.antt =====
-- The framing's theorem on a stream in three pieces, with a part of a line kept from before.
use silta.Common.{ℕ, ◌≡◌, refl, Option, none, some, List, [], ◌∷◌, arith}
use silta.Line.Reader.{Read, split, next_line}
use silta.Line.Framing.{joined, next_line-first_line}

abbrev text : List ℕ → Option (List ℕ)
text bytes = some bytes

-- "c", then "d" and a carriage return, a newline, and the start of the next line
abbrev pieces : List (List ℕ)
pieces = (99 ∷ []) ∷ (100 ∷ 13 ∷ []) ∷ (10 ∷ 101 ∷ []) ∷ []

no_newline : split (97 ∷ 98 ∷ []) ≡ none
unfolding split
no_newline = refl

next_line-first_line_example :
    joined text (next_line text 10 (97 ∷ 98 ∷ []) pieces)
    ≡ Read.line (some (97 ∷ 98 ∷ 99 ∷ 100 ∷ [])) (101 ∷ [])
unfolding split
next_line-first_line_example =
    next_line-first_line text 10 (97 ∷ 98 ∷ []) pieces no_newline (omega arith)
