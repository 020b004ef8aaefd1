-- ===== src/Transfer/Names.antt =====
-- `safe_id` and `safe_name` of crates/silta/src/transfer.rs. The extension that the crate
-- `mime_guess` has for a mime type is a parameter, none where it has none.
use Prim.Native.Char.{Char, code, char}
use Prim.Native.String.{String, ◌++◌, len, count}
use silta.Common.{
  ℕ, zero, suc, Bool, true, false, ◌||◌, Option, none, some, ltb, ◌==◌, if◌then◌else◌,
}
use silta.Transfer.Text.{is_control, is_whitespace, is_alphanumeric, trim_start, trim_end, pop}

-- Longest file name written, in bytes, transfer prefix aside.
abbrev pub name_max : ℕ
name_max = 100

abbrev pub underscore : Char
underscore = char 95 tt

-- `.chars().map(…).collect()`, where every character that does not pass the test becomes `_`
unfoldable pub blank_out : (ℕ → Bool) → String → String
blank_out bad String.[] = String.[]
blank_out bad (String.◌∷◌ c s) =
    String.◌∷◌ (if bad (code c) then underscore else c) (blank_out bad s)

abbrev pub bad_in_id : ℕ → Bool
bad_in_id c = if is_alphanumeric c || (c == b'-') || (c == b'_') then false else true

abbrev pub is_dollar : ℕ → Bool
is_dollar c = c == b'$'

-- A transfer or event id reduced to `[A-Za-z0-9_-]`, without a leading `$`.
unfoldable pub safe_id : String → String
safe_id id = blank_out bad_in_id (trim_start is_dollar id)

abbrev pub is_slash : ℕ → Bool
is_slash c = (c == b'/') || (c == b'\\')

abbrev pub keep_first : Bool → Char → String → Option String → Option String
keep_first slash c s (some last) = some last
keep_first true c s none = some s
keep_first false c s none = none

-- what stands after the last slash, none where there is no slash
unfoldable pub after_slash : String → Option String
after_slash String.[] = none
after_slash (String.◌∷◌ c s) = keep_first (is_slash (code c)) c s (after_slash s)

abbrev pub or_all : String → Option String → String
or_all name none = name
or_all name (some last) = last

-- `name.rsplit(['/', '\\']).next()`
unfoldable pub base : String → String
base name = or_all name (after_slash name)

abbrev pub bad_in_name : ℕ → Bool
bad_in_name c = is_control c || is_slash c || (c == b':')

abbrev pub is_dot : ℕ → Bool
is_dot c = c == b'.'

-- `while out.len() > NAME_MAX { out.pop(); }`, on fuel
unfoldable pub shorten : ℕ → String → String
shorten zero out = out
shorten (suc fuel) out =
    let rest = shorten fuel (pop out) in if ltb name_max (len out) then rest else out

abbrev pub dotted : Option String → String
dotted none = ""
dotted (some ext) = "." ++ ext

abbrev pub or_file : Option String → String → String
or_file ext String.[] = "file" ++ dotted ext
or_file ext (String.◌∷◌ c s) = String.◌∷◌ c s

unfoldable pub cleaned : String → String
cleaned name =
    trim_start is_dot
      (trim_end is_whitespace (trim_start is_whitespace (blank_out bad_in_name (base name))))

-- one `pop` per character is enough
unfoldable pub safe_name : (String → Option String) → String → String → String
unfolding cleaned
safe_name extension name mime =
    or_file (extension mime) (shorten (count (cleaned name)) (cleaned name))
