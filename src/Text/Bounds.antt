-- ===== src/Text/Bounds.antt =====
-- No chunk is empty or over the cap.
use Prim.Native.Char.{Char, len_utf8}
use Prim.Native.Char.{len_utf8_def, width}
use Prim.Native.Nat.{Ordering}
use text.Mathlib.TextPositions.{len_utf8-pos}
use silta.Common.{
  ℕ, ◌+◌, ◌≤◌, ◌<◌, ◌≡◌, some, List, [], ◌∷◌, ◌++◌, is_empty, ltb, leb, leb→le, All, All-append,
  arith, Bool-cases, inl, inr, if◌then◌else◌,
}
use silta.Text.Lines.{Text, len, split}
use silta.Text.Chunks.{
  trimmed, if_any, split_chars_from, split_chars, split_long, split_lines, Chunks, flush, append,
  newline, append_pieces, append_paragraphs, paragraphs, chunk_text, chunks_of,
}

width-le : (one two three : Ordering) → width one two three ≤ 4
width-le Ordering.lt two three = omega arith
width-le Ordering.eq Ordering.lt three = omega arith
width-le Ordering.eq Ordering.eq Ordering.lt = omega arith
width-le Ordering.eq Ordering.eq Ordering.eq = omega arith
width-le Ordering.eq Ordering.eq Ordering.gt = omega arith
width-le Ordering.eq Ordering.gt Ordering.lt = omega arith
width-le Ordering.eq Ordering.gt Ordering.eq = omega arith
width-le Ordering.eq Ordering.gt Ordering.gt = omega arith
width-le Ordering.gt Ordering.lt three = omega arith
width-le Ordering.gt Ordering.eq Ordering.lt = omega arith
width-le Ordering.gt Ordering.eq Ordering.eq = omega arith
width-le Ordering.gt Ordering.eq Ordering.gt = omega arith
width-le Ordering.gt Ordering.gt Ordering.lt = omega arith
width-le Ordering.gt Ordering.gt Ordering.eq = omega arith
width-le Ordering.gt Ordering.gt Ordering.gt = omega arith

len_utf8-le : (c : Char) → len_utf8 c ≤ 4
len_utf8-le c = rw (len_utf8_def c) (width-le _ _ _)

len-append : (s t : Text) → len (s ++ t) ≡ len s + len t
len-append [] t = omega arith
len-append (c ∷ s) t = omega (arith, len-append s t)

abbrev pub Fits : ℕ → Text → Type 0
Fits max s = len s ≤ max

-- a chunk to send
abbrev pub IsChunk : ℕ → Text → Type 0
IsChunk max s = (0 < len s) × (len s ≤ max)

if_any-IsChunk : (max : ℕ) (s : Text) → Fits max s → All (IsChunk max) (if_any s)
if_any-IsChunk max [] fits = tt
if_any-IsChunk max (c ∷ s) fits = let (k, e) = len_utf8-pos c in ((omega (arith, e), fits), tt)

if_any-Fits : (max : ℕ) (s : Text) → Fits max s → All (Fits max) (if_any s)
if_any-Fits max [] fits = tt
if_any-Fits max (c ∷ s) fits = (fits, tt)

split_chars_from-Fits :
    (max : ℕ) (since line : Text)
    → 4 ≤ max
    → Fits max since
    → All (Fits max) (split_chars_from max since line)
unfolding split_chars_from
split_chars_from-Fits max since [] cap fits = if_any-Fits max since fits
split_chars_from-Fits max since (c ∷ line) cap fits =
    elim (Bool-cases (ltb max (len since + len_utf8 c))) [
      | inl over ↦
          rw over
            (fits, split_chars_from-Fits max (c ∷ []) line cap (omega (arith, len_utf8-le c, cap)))
      | inr within ↦ rw within (
          split_chars_from-Fits max (since ++ c ∷ []) line cap
            (ground (arith, len-append since (c ∷ []))))
    ]

split_long-Fits : (max : ℕ) (lines : List Text) → 4 ≤ max → All (Fits max) (split_long lines max)
unfolding split_long split_chars
split_long-Fits max [] cap = tt
split_long-Fits max (line ∷ lines) cap = elim (Bool-cases (leb (len line) max)) [
  | inl short ↦ rw short (leb→le (len line) max short, split_long-Fits max lines cap)
  | inr long ↦ rw long (
      All-append (Fits max) (split_chars_from max [] line) (split_long lines max)
        (split_chars_from-Fits max [] line cap (omega arith)) (split_long-Fits max lines cap))
]

-- the chunks so far can be sent, and the one that grows fits
abbrev pub IsGood : ℕ → Chunks → Type 0
IsGood max (chunks, current) = All (IsChunk max) chunks × Fits max current

flush-IsGood : (max : ℕ) (c : Chunks) → IsGood max c → IsGood max (flush c)
flush-IsGood max (chunks, current) (all, fits) = (
  All-append (IsChunk max) chunks (if_any current) all (if_any-IsChunk max current fits),
  omega arith,
)

append-IsGood :
    (max : ℕ) (c : Chunks) (piece sep : Text)
    → IsGood max c
    → Fits max piece
    → IsGood max (append c piece sep max)
unfolding append
append-IsGood max (chunks, []) piece sep (all, fits) small = (all, small)
append-IsGood max (chunks, c ∷ current) piece sep (all, fits) small =
    elim (Bool-cases (leb (len (c ∷ current) + len sep + len piece) max)) [
      | inl room ↦
          rw room
            (all, ground (arith, len-append (c ∷ current) (sep ++ piece), len-append sep piece))
      | inr full ↦ rw full (
        All-append (IsChunk max) chunks (if_any (c ∷ current)) all
            (if_any-IsChunk max (c ∷ current) fits),
        small,
      )
    ]

append_pieces-IsGood :
    (max : ℕ) (c : Chunks) (pieces : List Text)
    → IsGood max c
    → All (Fits max) pieces
    → IsGood max (append_pieces c pieces max)
unfolding append_pieces
append_pieces-IsGood max c [] good all = good
append_pieces-IsGood max c (piece ∷ pieces) good all =
    append_pieces-IsGood max (append c piece (newline ∷ []) max) pieces
      (append-IsGood max c piece (newline ∷ []) good all.0) all.1

append_paragraphs-IsGood :
    (max : ℕ) (c : Chunks) (paragraphs : List Text)
    → 4 ≤ max
    → IsGood max c
    → IsGood max (append_paragraphs c paragraphs max)
unfolding append_paragraphs split_lines
append_paragraphs-IsGood max c [] cap good = good
append_paragraphs-IsGood max c (paragraph ∷ rest) cap good =
    elim (Bool-cases (ltb max (len paragraph))) [
      | inl long ↦ rw long (
          append_paragraphs-IsGood max (append_pieces (flush c) (split_lines paragraph max) max)
            rest cap
            (append_pieces-IsGood max (flush c) (split_long (split paragraph) max)
              (flush-IsGood max c good) (split_long-Fits max (split paragraph) cap)))
      | inr short ↦ rw short (
          append_paragraphs-IsGood max (append c paragraph (newline ∷ newline ∷ []) max) rest cap
            (append-IsGood max c paragraph (newline ∷ newline ∷ []) good (ground arith)))
    ]

chunks_of-IsChunk : (text : Text) (max : ℕ) → 4 ≤ max → All (IsChunk max) (chunks_of text max)
unfolding chunks_of
chunks_of-IsChunk text max cap = go (trimmed text)
  where
    go :
        (t : Text)
        → All (IsChunk max) (
            if is_empty t
            then []
            else if leb (len t) max
            then t ∷ []
            else (flush (append_paragraphs ([], []) (paragraphs t) max)).0)
    go [] = tt
    go (c ∷ t) = elim (Bool-cases (leb (len (c ∷ t)) max)) [
      | inl short ↦ rw short (if_any-IsChunk max (c ∷ t) (leb→le (len (c ∷ t)) max short))
      | inr long ↦
          rw long
            (flush-IsGood max _
              (append_paragraphs-IsGood max ([], []) (paragraphs (c ∷ t)) cap (tt, omega arith))).0
    ]

pub chunk_text-some :
    (text : Text) (max : ℕ) → 4 ≤ max → chunk_text text max ≡ some (chunks_of text max)
unfolding chunk_text
chunk_text-some text max cap = ground arith

-- With a cap of at least 4 bytes, whatever the text is: no chunk is empty, and none is over the
-- cap.
pub chunk_text-IsChunk :
    (text : Text) (max : ℕ)
    → 4 ≤ max
    → (chunks : List Text) × (chunk_text text max ≡ some chunks) × All (IsChunk max) chunks
chunk_text-IsChunk text max cap =
    (chunks_of text max, chunk_text-some text max cap, chunks_of-IsChunk text max cap)
