-- ===== src/Text/Lines.antt =====
-- The texts of crates/silta/src/text.rs as their characters, and what it uses of Rust's `str`.
use Prim.Native.Char.{Char, code, len_utf8}
use silta.Common.{
  ℕ, ◌+◌, Bool, true, false, ◌&&◌, ◌||◌, List, [], ◌∷◌, is_empty, ◌==◌, if◌then◌else◌,
}
use silta.Transfer.Text.{is_whitespace}

abbrev pub Text : Type 0
Text = List Char

-- `len`: the bytes of the text's UTF-8
abbrev pub len : Text → ℕ
len [] = 0
len (c ∷ s) = len_utf8 c + len s

abbrev pub is_newline : ℕ → Bool
is_newline c = c == 10

abbrev pub is_line_end : ℕ → Bool
is_line_end c = (c == 13) || (c == 10)

-- `trim_start_matches`
unfoldable pub trim_start : (ℕ → Bool) → Text → Text
trim_start p [] = []
trim_start p (c ∷ s) = let rest = trim_start p s in if p (code c) then rest else c ∷ s

abbrev pub unless_last : Bool → Char → Text → Text
unless_last true c [] = []
unless_last false c [] = c ∷ []
unless_last drop c (d ∷ s) = c ∷ d ∷ s

-- `trim_end_matches`
unfoldable pub trim_end : (ℕ → Bool) → Text → Text
trim_end p [] = []
trim_end p (c ∷ s) = unless_last (p (code c)) c (trim_end p s)

-- is there only white space: `trim().is_empty()`
abbrev pub is_blank : Text → Bool
is_blank s = is_empty (trim_end is_whitespace (trim_start is_whitespace s))

abbrev pub in_front : Char → List Text → List Text
in_front c [] = (c ∷ []) ∷ []
in_front c (line ∷ lines) = (c ∷ line) ∷ lines

-- `split_inclusive('\n')`
unfoldable pub split_inclusive : Text → List Text
split_inclusive [] = []
split_inclusive (c ∷ s) =
    let rest = split_inclusive s in if is_newline (code c) then (c ∷ []) ∷ rest else in_front c rest

-- `split('\n')`
unfoldable pub split : Text → List Text
split [] = [] ∷ []
split (c ∷ s) = let rest = split s in if is_newline (code c) then [] ∷ rest else in_front c rest

-- `starts_with`
abbrev pub starts_with : List ℕ → Text → Bool
starts_with [] s = true
starts_with (p ∷ ps) [] = false
starts_with (p ∷ ps) (c ∷ s) = (code c == p) && starts_with ps s

-- a line that opens or closes a fence: "```" or "~~~"
abbrev pub is_fence : Text → Bool
is_fence line = starts_with (96 ∷ 96 ∷ 96 ∷ []) line || starts_with (126 ∷ 126 ∷ 126 ∷ []) line
