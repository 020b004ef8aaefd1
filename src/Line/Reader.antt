-- ===== src/Line/Reader.antt =====
-- crates/silta/src/line.rs: `LineReader`. The stream is the list of what each `fill_buf` will
-- show, none of it empty; its end is the end of the list. I/O errors are outside. What
-- `String::from_utf8` makes of the bytes of a line is a parameter, none where they are not
-- UTF-8.
use silta.Common.{ℕ, ◌+◌, Option, none, some, List, [], ◌∷◌, ◌++◌, ◌==◌, ltb, length, if◌then◌else◌}

abbrev pub newline : ℕ
newline = 10

abbrev pub carriage_return : ℕ
carriage_return = 13

-- `bytes.pop()` if the last byte is a carriage return
abbrev pub pop_return : List ℕ → List ℕ
pop_return [] = []
pop_return (b ∷ []) = if b == carriage_return then [] else b ∷ []
pop_return (b ∷ c ∷ rest) = b ∷ pop_return (c ∷ rest)

abbrev pub after_newline : ℕ → Option (List ℕ × List ℕ) → Option (List ℕ × List ℕ)
after_newline b none = none
after_newline b (some (line, rest)) = some (b ∷ line, rest)

-- `available.iter().position(|&b| b == b'\n')`: what is before the newline, and what after it
unfoldable pub split : List ℕ → Option (List ℕ × List ℕ)
split [] = none
split (b ∷ rest) =
    let later = split rest in if b == newline then some ([], rest) else after_newline b later

-- what `consume` leaves of the stream
abbrev pub unread : List ℕ → List (List ℕ) → List (List ℕ)
unread [] stream = stream
unread (b ∷ bytes) stream = (b ∷ bytes) ∷ stream

-- what a call of `next_line` answers; a line stands with what is left of the stream
pub data Read (Text : Type 0) (Stream : Type 0) : Type 0 where
  line : (text : Option Text) (left : Stream) → Read Text Stream
  eof : Read Text Stream
  too_long : Read Text Stream

module _ {Text : Type 0} (from_utf8 : List ℕ → Option Text) where
  abbrev pub finish : List ℕ → Option Text
  finish bytes = from_utf8 (pop_return bytes)

  abbrev pub found :
      ℕ
      → List ℕ
      → List ℕ
      → List (List ℕ)
      → Option (List ℕ × List ℕ)
      → Read Text (List (List ℕ))
      → Read Text (List (List ℕ))
  found max buf available stream (some (before, after)) later =
      if ltb max (length buf + length before)
      then Read.too_long
      else Read.line (finish (buf ++ before)) (unread after stream)
  found max buf available stream none later =
      if ltb max (length buf + length available) then Read.too_long else later

  abbrev pub at_end : List ℕ → Read Text (List (List ℕ))
  at_end [] = Read.eof
  at_end (b ∷ buf) = Read.line (finish (b ∷ buf)) []

  -- `next_line`, from the part of a line that an earlier call kept in `buf`
  unfoldable pub next_line : ℕ → List ℕ → List (List ℕ) → Read Text (List (List ℕ))
  unfolding split
  next_line max buf [] = at_end buf
  next_line max buf (available ∷ stream) =
      let later = next_line max (buf ++ available) stream in
      found max buf available stream (split available) later
