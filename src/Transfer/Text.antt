-- ===== src/Transfer/Text.antt =====
-- Texts as Rust's `str` methods walk them: characters with the numbers they have in Unicode.
use Prim.Native.Char.{Char, code}
use Prim.Native.String.{String}
use silta.Common.{◌≡◌, refl, arith, ℕ, Bool, true, false, ◌&&◌, ◌||◌, ltb, leb, ◌==◌, if◌then◌else◌}

-- `char::is_control`: the category Cc
abbrev pub is_control : ℕ → Bool
is_control c = ltb c 32 || (leb 127 c && leb c 159)

-- `char::is_whitespace`: the property White_Space
abbrev pub is_whitespace : ℕ → Bool
is_whitespace c =
    (leb 9 c && leb c 13)
    || (c == 32)
    || (c == 133)
    || (c == 160)
    || (c == 5760)
    || (leb 8192 c && leb c 8202)
    || (c == 8232)
    || (c == 8233)
    || (c == 8239)
    || (c == 8287)
    || (c == 12288)

-- `char::is_ascii_alphanumeric`
abbrev pub is_alphanumeric : ℕ → Bool
is_alphanumeric c =
    (leb b'0' c && leb c b'9') || (leb b'A' c && leb c b'Z') || (leb b'a' c && leb c b'z')

-- every character
unfoldable pub every : (ℕ → Bool) → String → Bool
every p String.[] = true
every p (String.◌∷◌ c s) = p (code c) && every p s

-- `trim_start_matches`
unfoldable pub trim_start : (ℕ → Bool) → String → String
trim_start p String.[] = String.[]
trim_start p (String.◌∷◌ c s) =
    let rest = trim_start p s in if p (code c) then rest else String.◌∷◌ c s

abbrev pub unless_last : Bool → Char → String → String
unless_last true c String.[] = String.[]
unless_last false c String.[] = String.◌∷◌ c String.[]
unless_last drop c (String.◌∷◌ d s) = String.◌∷◌ c (String.◌∷◌ d s)

-- `trim_end_matches`
unfoldable pub trim_end : (ℕ → Bool) → String → String
trim_end p String.[] = String.[]
trim_end p (String.◌∷◌ c s) = unless_last (p (code c)) c (trim_end p s)

-- `String::pop`
abbrev pub pop : String → String
pop String.[] = String.[]
pop (String.◌∷◌ c String.[]) = String.[]
pop (String.◌∷◌ c (String.◌∷◌ d s)) = String.◌∷◌ c (pop (String.◌∷◌ d s))

pub every-trim_start :
    (p q : ℕ → Bool) (s : String) → every q s ≡ true → every q (trim_start p s) ≡ true
unfolding trim_start every
every-trim_start p q String.[] h = refl
every-trim_start p q (String.◌∷◌ c s) h = ground (arith, every-trim_start p q s)
