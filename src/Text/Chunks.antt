-- ===== src/Text/Chunks.antt =====
-- `chunk_text` of crates/silta/src/text.rs and its helpers. `text[start..pos]` is kept as the text
-- read since `start`.
use Prim.Native.Char.{Char, char, len_utf8}
use silta.Common.{
  ℕ, ◌+◌, Bool, true, false, not, ◌&&◌, Option, none, some, List, [], ◌∷◌, ◌++◌, is_empty, ltb, leb,
  if◌then◌else◌,
}
use silta.Transfer.Text.{is_whitespace}
use silta.Text.Lines.{Text, len, is_line_end, trim_end, is_blank, split_inclusive, split, is_fence}

abbrev pub trimmed : Text → Text
trimmed s = trim_end is_whitespace s

abbrev pub if_any : Text → List Text
if_any [] = []
if_any (c ∷ s) = (c ∷ s) ∷ []

abbrev pub toggle : Bool → Text → Bool
toggle in_fence line = if is_fence (trim_end is_line_end line) then not in_fence else in_fence

-- the paragraphs of the lines to come, after the text since `start`
unfoldable pub paragraphs_from : List Text → Text → Bool → Bool → List Text
paragraphs_from [] since in_fence last_blank = if is_empty since then [] else if_any (trimmed since)
paragraphs_from (line ∷ lines) since in_fence last_blank =
    let in_fence' = toggle in_fence line in
    let after_blank = paragraphs_from lines [] in_fence' true in
    let inside = paragraphs_from lines (since ++ line) in_fence' false in
    if is_blank (trim_end is_line_end line) && not in_fence'
    then (if not last_blank && not (is_empty since)
        then trimmed since ∷ after_blank
        else after_blank)
    else inside

unfoldable pub paragraphs : Text → List Text
unfolding paragraphs_from split_inclusive
paragraphs text = paragraphs_from (split_inclusive text) [] false false

-- the pieces of a line, after what was read since the last cut
unfoldable pub split_chars_from : ℕ → Text → Text → List Text
split_chars_from max since [] = if_any since
split_chars_from max since (c ∷ line) =
    let cut = split_chars_from max (c ∷ []) line in
    let on = split_chars_from max (since ++ c ∷ []) line in
    if ltb max (len since + len_utf8 c) then since ∷ cut else on

unfoldable pub split_chars : Text → ℕ → List Text
unfolding split_chars_from
split_chars line max = split_chars_from max [] line

unfoldable pub split_long : List Text → ℕ → List Text
unfolding split_chars
split_long [] max = []
split_long (line ∷ lines) max =
    let rest = split_long lines max in
    if leb (len line) max then line ∷ rest else split_chars line max ++ rest

unfoldable pub split_lines : Text → ℕ → List Text
unfolding split_long split
split_lines paragraph max = split_long (split paragraph) max

-- the chunks so far and the one that grows
abbrev pub Chunks : Type 0
Chunks = List Text × Text

abbrev pub flush : Chunks → Chunks
flush (chunks, current) = (chunks ++ if_any current, [])

unfoldable pub append : Chunks → Text → Text → ℕ → Chunks
append (chunks, current) piece sep max =
    if is_empty current
    then (chunks, current ++ piece)
    else if leb (len current + len sep + len piece) max
    then (chunks, current ++ (sep ++ piece))
    else (chunks ++ if_any current, piece)

abbrev pub newline : Char
newline = char 10 tt

unfoldable pub append_pieces : Chunks → List Text → ℕ → Chunks
unfolding append
append_pieces c [] max = c
append_pieces c (piece ∷ pieces) max = append_pieces (append c piece (newline ∷ []) max) pieces max

unfoldable pub append_paragraphs : Chunks → List Text → ℕ → Chunks
unfolding append_pieces append split_lines
append_paragraphs c [] max = c
append_paragraphs c (paragraph ∷ rest) max =
    let long = append_pieces (flush c) (split_lines paragraph max) max in
    let short = append c paragraph (newline ∷ newline ∷ []) max in
    if ltb max (len paragraph)
    then append_paragraphs long rest max
    else append_paragraphs short rest max

unfoldable pub chunks_of : Text → ℕ → List Text
unfolding append_paragraphs paragraphs
chunks_of text max =
    let t = trimmed text in
    let chunks = flush (append_paragraphs ([], []) (paragraphs t) max) in
    if is_empty t then [] else if leb (len t) max then t ∷ [] else chunks.0

-- none: the assertion on the cap fails
unfoldable pub chunk_text : Text → ℕ → Option (List Text)
unfolding chunks_of
chunk_text text max = if ltb max 4 then none else some (chunks_of text max)
