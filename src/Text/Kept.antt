-- ===== src/Text/Kept.antt =====
-- Nothing but white space is lost or added between the text and its chunks.
use Prim.Native.Char.{len_utf8}
use silta.Text.Bounds.{chunk_text-some}
use silta.Common.{
  ℕ, ◌+◌, ◌≤◌, ◌≡◌, Option, refl, sym, ap, ap₂, ◌∙◌, ◌⊎◌, inl, inr, Bool, true, false, not, ◌&&◌,
  List, [], ◌∷◌, ◌++◌, is_empty, ltb, leb, arith, Bool-cases,
}
use silta.Transfer.Text.{is_whitespace}
use silta.Text.Lines.{Text, len, is_line_end, trim_end, is_blank, split_inclusive, split}
use silta.Text.Chunks.{
  trimmed, if_any, toggle, paragraphs_from, paragraphs, split_chars_from, split_chars, split_long,
  split_lines, Chunks, flush, append, newline, append_pieces, append_paragraphs, chunk_text,
  chunks_of,
}
use silta.Text.Solid.{
  append_assoc, append_nil, solid-append, solids-append, solid-trim_end, itself, line_ends,
  solid-is_empty, solid-is_blank, solid-cons, solid-white, solid-nil, solids-split_inclusive,
  solids-split, solids-if_any, solid, solids,
}

-- after a blank line nothing was read yet
abbrev IsFresh : Bool → Text → Type 0
IsFresh last_blank since = (last_blank ≡ false) ⊎ (is_empty since ≡ true)

nothing_since :
    (last_blank none : Bool)
    → (last_blank ≡ false) ⊎ (none ≡ true)
    → (not last_blank && not none) ≡ false
    → none ≡ true
nothing_since last_blank none (inl read) h = ground arith
nothing_since last_blank none (inr empty) h = empty

solids-paragraphs_from :
    (lines : List Text) (since : Text) (in_fence last_blank : Bool)
    → IsFresh last_blank since
    → solids (paragraphs_from lines since in_fence last_blank) ≡ solid since ++ solids lines
unfolding paragraphs_from solids
solids-paragraphs_from [] since in_fence last_blank fresh = elim (Bool-cases (is_empty since)) [
  | inl none ↦ rw none (sym (append_nil (solid since) ∙ solid-is_empty since none))
  | inr some ↦ rw some (
      solids-if_any (trimmed since)
      ∙ solid-trim_end is_whitespace since itself
      ∙ sym (append_nil (solid since)))
]
solids-paragraphs_from (line ∷ lines) since in_fence last_blank fresh =
    let in_fence' = toggle in_fence line in
    let blank = solids-paragraphs_from lines [] in_fence' true (inr refl) in
    let inside = solids-paragraphs_from lines (since ++ line) in_fence' false (inl refl) in
    elim (Bool-cases (is_blank (trim_end is_line_end line) && not in_fence')) [
      | inr on ↦ rw on (
          inside
          ∙ ap (λ l. l ++ solids lines) (solid-append since line)
          ∙ append_assoc (solid since) (solid line) (solids lines))
      | inl over ↦
          let nothing : (solid line ≡ []) =
            sym (solid-trim_end is_line_end line line_ends)
            ∙ solid-is_blank (trim_end is_line_end line) (ground arith) in
          let tail : (solids (paragraphs_from lines [] in_fence' true)
              ≡ solid line ++ solids lines) =
            blank ∙ ap (λ l. l ++ solids lines) (solid-nil ∙ sym nothing) in
          elim (Bool-cases (not last_blank && not (is_empty since))) [
            | inl some ↦
                rw over
                  (rw some (ap₂ (λ x y. x ++ y) (solid-trim_end is_whitespace since itself) tail))
            | inr none ↦ rw over (
                rw none (
                  tail
                  ∙ ap (λ l. l ++ (solid line ++ solids lines))
                      (sym (
                        solid-is_empty since
                          (nothing_since last_blank (is_empty since) fresh none)))))
          ]
    ]

solids-split_chars_from :
    (max : ℕ) (since line : Text)
    → solids (split_chars_from max since line) ≡ solid since ++ solid line
unfolding split_chars_from solids
solids-split_chars_from max since [] =
    solids-if_any since ∙ sym (ap (λ l. solid since ++ l) solid-nil ∙ append_nil (solid since))
solids-split_chars_from max since (c ∷ line) =
    elim (Bool-cases (ltb max (len since + len_utf8 c))) [
      | inl over ↦ rw over (
          ap (λ l. solid since ++ l)
            (solids-split_chars_from max (c ∷ []) line ∙ sym (solid-cons c line)))
      | inr within ↦ rw within (
          solids-split_chars_from max (since ++ c ∷ []) line
          ∙ ap (λ l. l ++ solid line) (solid-append since (c ∷ []))
          ∙ append_assoc (solid since) (solid (c ∷ [])) (solid line)
          ∙ ap (λ l. solid since ++ l) (sym (solid-cons c line)))
    ]

solids-split_long : (lines : List Text) (max : ℕ) → solids (split_long lines max) ≡ solids lines
unfolding split_long split_chars solids
solids-split_long [] max = refl
solids-split_long (line ∷ lines) max = elim (Bool-cases (leb (len line) max)) [
  | inl short ↦ rw short (ap (λ l. solid line ++ l) (solids-split_long lines max))
  | inr long ↦ rw long (
      solids-append (split_chars_from max [] line) (split_long lines max)
      ∙ ap₂ (λ x y. x ++ y)
          (solids-split_chars_from max [] line ∙ ap (λ l. l ++ solid line) solid-nil)
          (solids-split_long lines max))
]

-- what the chunks hold so far
abbrev pub held : Chunks → Text
held (chunks, current) = solids chunks ++ solid current

held-flush : (c : Chunks) → held (flush c) ≡ held c
held-flush (chunks, current) =
    ap₂ (λ x y. x ++ y)
      (solids-append chunks (if_any current) ∙ ap (λ l. solids chunks ++ l) (solids-if_any current))
      solid-nil
    ∙ append_nil (solids chunks ++ solid current)

held-append :
    (c : Chunks) (piece sep : Text) (max : ℕ)
    → solid sep ≡ []
    → held (append c piece sep max) ≡ held c ++ solid piece
unfolding append
held-append (chunks, current) piece sep max white =
    let joined =
      ap (λ l. solids chunks ++ l) (solid-append current piece)
      ∙ sym (append_assoc (solids chunks) (solid current) (solid piece)) in
    elim (Bool-cases (is_empty current)) [
      | inl none ↦ rw none joined
      | inr some ↦ elim (Bool-cases (leb (len current + len sep + len piece) max)) [
        | inl room ↦ rw some (
            rw room (
              ap (λ l. solids chunks ++ l)
                (solid-append current (sep ++ piece)
                  ∙ ap (λ l. solid current ++ l)
                      (solid-append sep piece ∙ ap (λ l. l ++ solid piece) white))
              ∙ sym (append_assoc (solids chunks) (solid current) (solid piece))))
        | inr full ↦ rw some (
            rw full (
              ap (λ l. l ++ solid piece)
                (solids-append chunks (if_any current)
                  ∙ ap (λ l. solids chunks ++ l) (solids-if_any current))))
      ]
    ]

solid-newline : solid (newline ∷ []) ≡ []
unfolding solid
solid-newline = refl

held-append_pieces :
    (pieces : List Text) (c : Chunks) (max : ℕ)
    → held (append_pieces c pieces max) ≡ held c ++ solids pieces
unfolding append_pieces solids
held-append_pieces [] c max = sym (append_nil (held c))
held-append_pieces (piece ∷ pieces) c max =
    held-append_pieces pieces (append c piece (newline ∷ []) max) max
    ∙ ap (λ l. l ++ solids pieces) (held-append c piece (newline ∷ []) max solid-newline)
    ∙ append_assoc (held c) (solid piece) (solids pieces)

held-append_paragraphs :
    (paragraphs : List Text) (c : Chunks) (max : ℕ)
    → held (append_paragraphs c paragraphs max) ≡ held c ++ solids paragraphs
unfolding append_paragraphs solids split_lines
held-append_paragraphs [] c max = sym (append_nil (held c))
held-append_paragraphs (paragraph ∷ rest) c max = elim (Bool-cases (ltb max (len paragraph))) [
  | inl long ↦ rw long (
      held-append_paragraphs rest (append_pieces (flush c) (split_lines paragraph max) max) max
      ∙ ap (λ l. l ++ solids rest)
          (held-append_pieces (split_lines paragraph max) (flush c) max
            ∙ ap₂ (λ x y. x ++ y) (held-flush c)
                (solids-split_long (split paragraph) max ∙ solids-split paragraph))
      ∙ append_assoc (held c) (solid paragraph) (solids rest))
  | inr short ↦ rw short (
      held-append_paragraphs rest (append c paragraph (newline ∷ newline ∷ []) max) max
      ∙ ap (λ l. l ++ solids rest)
          (held-append c paragraph (newline ∷ newline ∷ []) max
            (solid-white newline (newline ∷ []) refl ∙ solid-newline))
      ∙ append_assoc (held c) (solid paragraph) (solids rest))
]

solids-chunks_of : (text : Text) (max : ℕ) → solids (chunks_of text max) ≡ solid text
unfolding chunks_of paragraphs solids
solids-chunks_of text max =
    let t = trimmed text in
    let kept = solid-trim_end is_whitespace text itself in
    let all = append_paragraphs ([], []) (paragraphs t) max in
    elim (Bool-cases (is_empty t)) [
      | inl none ↦ rw none (sym (solid-is_empty t none) ∙ kept)
      | inr some ↦ elim (Bool-cases (leb (len t) max)) [
        | inl short ↦ rw some (rw short (append_nil (solid t) ∙ kept))
        | inr long ↦ rw some (
            rw long (
              sym (append_nil (solids (flush all).0))
              ∙ ap (λ l. solids (flush all).0 ++ l) (sym solid-nil)
              ∙ held-flush all
              ∙ held-append_paragraphs (paragraphs t) ([], []) max
              ∙ ap (λ l. l ++ solids (paragraphs t)) solid-nil
              ∙ solids-paragraphs_from (split_inclusive t) [] false false (inl refl)
              ∙ ap (λ l. l ++ solids (split_inclusive t)) solid-nil
              ∙ solids-split_inclusive t
              ∙ kept))
      ]
    ]

-- With a cap of at least 4 bytes, a text is cut without a panic, and the chunks hold the characters
-- of the text that are not white space, all of them and in their order: nothing of a message but
-- white space is lost, doubled or moved, whatever its fences, paragraphs and lines are.
pub solids-chunk_text :
    (text : Text) (max : ℕ)
    → 4 ≤ max
    → (chunks : List Text) × (chunk_text text max ≡ Option.some chunks)
      × (solids chunks ≡ solid text)
solids-chunk_text text max cap =
    (chunks_of text max, chunk_text-some text max cap, solids-chunks_of text max)
