-- ===== src/Line/Framing.antt =====
-- What `next_line` reads does not depend on how the stream is cut into pieces, nor on where an
-- earlier call was cancelled.
use mathlib.Core.List.{append_assoc, append-nil}
use silta.Common.{
  ℕ, ◌+◌, ◌≤◌, ◌≡◌, refl, ap, sym, ◌∙◌, true, Option, none, some, List, [], ◌∷◌, ◌++◌, ltb, length,
  length-append, if◌then◌else◌, arith, Option-cases, inl, inr, Bool-cases,
}
use silta.Line.Reader.{split, unread, Read, finish, at_end, found, next_line}

abbrev pub flatten : List (List ℕ) → List ℕ
flatten [] = []
flatten (bytes ∷ stream) = bytes ++ flatten stream

module _ {Text : Type 0} (from_utf8 : List ℕ → Option Text) where
  abbrev pub unfinished : ℕ → List ℕ → Read Text (List ℕ)
  unfinished max [] = Read.eof
  unfinished max (b ∷ bytes) =
      if ltb max (length (b ∷ bytes))
      then Read.too_long
      else Read.line (finish from_utf8 (b ∷ bytes)) []

  abbrev pub cut : ℕ → List ℕ → Option (List ℕ × List ℕ) → Read Text (List ℕ)
  cut max bytes none = unfinished max bytes
  cut max bytes (some (before, after)) =
      if ltb max (length before) then Read.too_long else Read.line (finish from_utf8 before) after

  -- the next line of a byte string that is there at once
  abbrev pub first_line : ℕ → List ℕ → Read Text (List ℕ)
  first_line max bytes = cut max bytes (split bytes)

  -- a read with the rest of its stream in one piece
  abbrev pub joined : Read Text (List (List ℕ)) → Read Text (List ℕ)
  joined (Read.line text left) = Read.line text (flatten left)
  joined Read.eof = Read.eof
  joined Read.too_long = Read.too_long

-- a newline in the front part is found there
split-append-some :
    (xs ys before after : List ℕ)
    → split xs ≡ some (before, after)
    → split (xs ++ ys) ≡ some (before, after ++ ys)
unfolding split
split-append-some [] ys before after h = cc
split-append-some (x ∷ xs) ys before after h = elim (Option-cases (split xs)) [
  | inl e ↦ ground (arith, e)
  | inr ((b, a), e) ↦ ground (arith, e, split-append-some xs ys b a e)
]

abbrev behind : List ℕ → Option (List ℕ × List ℕ) → Option (List ℕ × List ℕ)
behind xs none = none
behind xs (some (before, after)) = some (xs ++ before, after)

split-append-none : (xs ys : List ℕ) → split xs ≡ none → split (xs ++ ys) ≡ behind xs (split ys)
unfolding split
split-append-none [] ys h = ground arith
split-append-none (x ∷ xs) ys h = ground (arith, split-append-none xs ys (ground arith))

flatten-unread :
    (after : List ℕ) (stream : List (List ℕ))
    → flatten (unread after stream) ≡ after ++ flatten stream
flatten-unread [] stream = refl
flatten-unread (b ∷ after) stream = refl

module _ {Text : Type 0} (from_utf8 : List ℕ → Option Text) where
  at_end-first_line :
      (max : ℕ) (buf : List ℕ)
      → split buf ≡ none
      → length buf ≤ max
      → joined from_utf8 (at_end from_utf8 buf) ≡ cut from_utf8 max buf (split buf)
  at_end-first_line max [] n h = rw n refl
  at_end-first_line max (b ∷ buf) n h = rw n (ground arith)

  over-too_long :
      (max : ℕ) (xs ys : List ℕ) (o : Option (List ℕ × List ℕ))
      → ltb max (length xs) ≡ true
      → cut from_utf8 max (xs ++ ys) (behind xs o) ≡ Read.too_long
  over-too_long max [] ys o h = absurd (ground arith)
  over-too_long max (x ∷ xs) ys none h = ground (arith, length-append xs ys)
  over-too_long max (x ∷ xs) ys (some (before, after)) h = ground (arith, length-append xs before)

  found-first_line :
      (max : ℕ) (buf available : List ℕ) (stream : List (List ℕ)) (o : Option (List ℕ × List ℕ))
      (later : Read Text (List (List ℕ)))
      → split available ≡ o
      → split buf ≡ none
      → length buf ≤ max
      → (split (buf ++ available) ≡ none
          → length (buf ++ available) ≤ max
          → joined from_utf8 later
            ≡ first_line from_utf8 max ((buf ++ available) ++ flatten stream))
      → joined from_utf8 (found from_utf8 max buf available stream o later)
        ≡ first_line from_utf8 max (buf ++ (available ++ flatten stream))
  found-first_line max buf available stream (some (before, after)) later e n h k =
      let whole = available ++ flatten stream in
      let s = split-append-none buf whole n in
      let t = split-append-some available (flatten stream) before after e in
      ground (arith, s, t, length-append buf before, flatten-unread after stream)
  found-first_line max buf available stream none later e n h k =
      let s = split-append-none buf available n in
      let all = buf ++ available in
      let all_none : split all ≡ none = ground arith in
      let flat = flatten stream in
      let t = split-append-none all flat all_none in
      let same = ap (λ bytes. first_line from_utf8 max bytes) (append_assoc buf available flat) in
      let l = length-append buf available in
      elim (Bool-cases (ltb max (length buf + length available))) [
        | inl long ↦
            let over = over-too_long max all flat (split flat) (ground arith) in
            rw long (sym over ∙ ap (λ o. cut from_utf8 max (all ++ flat) o) (sym t) ∙ same)
        | inr short ↦ rw short (k all_none (ground arith) ∙ same)
      ]

  -- Whatever pieces the stream comes in, and whatever part of a line an earlier call, cancelled,
  -- kept (no newline in it, and within the cap): `next_line` answers what it would if all were
  -- there at once, the line up to the first newline, the rest at the end of the stream, the end,
  -- or the refusal of a line over the cap; and it leaves exactly the bytes after the line.
  pub next_line-first_line :
      (max : ℕ) (buf : List ℕ) (stream : List (List ℕ))
      → split buf ≡ none
      → length buf ≤ max
      → joined from_utf8 (next_line from_utf8 max buf stream)
        ≡ first_line from_utf8 max (buf ++ flatten stream)
  unfolding next_line
  next_line-first_line max buf [] n h =
      at_end-first_line max buf n h
      ∙ sym (ap (λ bytes. first_line from_utf8 max bytes) (append-nil buf))
  next_line-first_line max buf (available ∷ stream) n h =
      found-first_line max buf available stream (split available)
        (next_line from_utf8 max (buf ++ available) stream) refl n h
        (λ m k. next_line-first_line max (buf ++ available) stream m k)
