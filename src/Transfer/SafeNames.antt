-- ===== src/Transfer/SafeNames.antt =====
-- What the names of files are like, whatever the other side sends.
use Prim.Native.Char.{Char, code, char}
use Prim.Native.String.{String, ◌++◌, len, count}
use silta.Common.{
  ℕ, zero, suc, ◌-◌, ◌≤◌, ◌<◌, ◌≡◌, refl, Bool, true, false, not, Option, none, some, if◌then◌else◌,
  arith, Bool-cases, inl, inr,
}
use text.Mathlib.TextLemmas.{length-cons, nil-append, cons-append, length-append}
use text.Mathlib.TextPositions.{len-append}
use silta.Transfer.Text.{
  is_whitespace, trim_start, trim_end, unless_last, pop, every, every-trim_start,
}
use silta.Transfer.Names.{
  safe_name, shorten, blank_out, cleaned, bad_in_name, is_dot, or_file, dotted, name_max,
  underscore, base,
}

abbrev pub allowed : ℕ → Bool
allowed c = not (bad_in_name c)

-- does the first character pass the test?
abbrev pub begins : (ℕ → Bool) → String → Bool
begins p String.[] = false
begins p (String.◌∷◌ c s) = p (code c)

kept :
    (p : ℕ → Bool) (c : Char)
    → p 95 ≡ false
    → not (p (code (if p (code c) then underscore else c))) ≡ true
kept p c u = elim (Bool-cases (p (code c))) [ inl e ↦ simp (e, u) | inr e ↦ simp e ]

every-blank_out :
    (p : ℕ → Bool) (s : String) → p 95 ≡ false → every (λ c. not (p c)) (blank_out p s) ≡ true
unfolding every blank_out
every-blank_out p String.[] u = refl
every-blank_out p (String.◌∷◌ c s) u = ground (arith, kept p c u, every-blank_out p s u)

every-unless_last :
    (q : ℕ → Bool) (drop : Bool) (c : Char) (s : String)
    → q (code c) ≡ true
    → every q s ≡ true
    → every q (unless_last drop c s) ≡ true
unfolding every
every-unless_last q true c String.[] k h = refl
every-unless_last q false c String.[] k h = ground arith
every-unless_last q drop c (String.◌∷◌ d s) k h = ground arith

every-trim_end : (p q : ℕ → Bool) (s : String) → every q s ≡ true → every q (trim_end p s) ≡ true
unfolding trim_end every
every-trim_end p q String.[] h = refl
every-trim_end p q (String.◌∷◌ c s) h =
    every-unless_last q (p (code c)) c (trim_end p s) (ground arith)
      (every-trim_end p q s (ground arith))

every-pop : (q : ℕ → Bool) (s : String) → every q s ≡ true → every q (pop s) ≡ true
unfolding every
every-pop q String.[] h = refl
every-pop q (String.◌∷◌ c String.[]) h = refl
every-pop q (String.◌∷◌ c (String.◌∷◌ d s)) h = ground (arith, every-pop q (String.◌∷◌ d s))

every-shorten :
    (q : ℕ → Bool) (fuel : ℕ) (s : String) → every q s ≡ true → every q (shorten fuel s) ≡ true
unfolding shorten
every-shorten q zero s h = h
every-shorten q (suc fuel) s h = ground (arith, every-shorten q fuel (pop s) (every-pop q s h))

begins-trim_start : (p : ℕ → Bool) (s : String) → begins p (trim_start p s) ≡ false
unfolding trim_start
begins-trim_start p String.[] = refl
begins-trim_start p (String.◌∷◌ c s) = ground (arith, begins-trim_start p s)

begins-pop : (p : ℕ → Bool) (s : String) → begins p s ≡ false → begins p (pop s) ≡ false
begins-pop p String.[] h = refl
begins-pop p (String.◌∷◌ c String.[]) h = refl
begins-pop p (String.◌∷◌ c (String.◌∷◌ d s)) h = h

begins-shorten :
    (p : ℕ → Bool) (fuel : ℕ) (s : String) → begins p s ≡ false → begins p (shorten fuel s) ≡ false
unfolding shorten
begins-shorten p zero s h = h
begins-shorten p (suc fuel) s h = ground (arith, begins-shorten p fuel (pop s) (begins-pop p s h))

count-pop : (s : String) → count (pop s) ≡ count s - 1
count-pop String.[] = refl
count-pop (String.◌∷◌ c String.[]) = omega (arith, length-cons c String.[])
count-pop (String.◌∷◌ c (String.◌∷◌ d s)) = omega (
  arith,
  length-cons d s,
  length-cons c (String.◌∷◌ d s),
  length-cons c (pop (String.◌∷◌ d s)),
  count-pop (String.◌∷◌ d s),
)

len-shorten : (fuel : ℕ) (s : String) → count s ≤ fuel → len (shorten fuel s) ≤ name_max
unfolding shorten
len-shorten zero String.[] h = omega arith
len-shorten zero (String.◌∷◌ c s) h = omega (arith, length-cons c s)
len-shorten (suc fuel) s h = ground (arith, count-pop s, len-shorten fuel (pop s))

-- what a file's name may be: no slash, colon or control character, no leading dot, not empty, and
-- at most `NAME_MAX` bytes
pub IsSafe : String → Type 0
IsSafe name =
    (every allowed name ≡ true)
    × (begins is_dot name ≡ false)
    × (len name ≤ name_max)
    × (0 < count name)

-- what is asked of the extensions: they are short and plain
abbrev pub IsPlain : (String → Option String) → Type 0
IsPlain extension =
    (mime ext : String) → extension mime ≡ some ext → (every allowed ext ≡ true) × (len ext ≤ 95)

cleaned-allowed : (name : String) → every allowed (cleaned name) ≡ true
unfolding cleaned
cleaned-allowed name = every-trim_start is_dot allowed _ (
    every-trim_end is_whitespace allowed _
      (every-trim_start is_whitespace allowed _ (every-blank_out bad_in_name (base name) refl)))

cleaned-dot : (name : String) → begins is_dot (cleaned name) ≡ false
unfolding cleaned
cleaned-dot name = begins-trim_start is_dot _

every-append :
    (q : ℕ → Bool) (s t : String) → every q s ≡ true → every q t ≡ true → every q (s ++ t) ≡ true
unfolding every
every-append q String.[] t h k = simp (nil-append, k)
every-append q (String.◌∷◌ c s) t h k = rw (cons-append c s t) (ground (arith, every-append q s t))

begins-append :
    (q : ℕ → Bool) (c : Char) (s t : String) → begins q (String.◌∷◌ c s ++ t) ≡ q (code c)
begins-append q c s t = rw (cons-append c s t) refl

file-IsSafe :
    (extension : String → Option String) (mime : String) (ext : Option String)
    → IsPlain extension
    → extension mime ≡ ext
    → IsSafe ("file" ++ dotted ext)
unfolding IsSafe every
file-IsSafe extension mime none plain h = (refl, refl, omega arith, omega arith)
file-IsSafe extension mime (some ext) plain h =
    let short = plain mime ext h in
    let all =
      every-append allowed "file" ("." ++ ext) refl (every-append allowed "." ext refl short.0) in
    (
      all,
      begins-append is_dot (char 102 tt) "ile" ("." ++ ext),
      omega (arith, short.1, len-append "file" ("." ++ ext), len-append "." ext),
      omega (arith, length-append "file" ("." ++ ext)),
    )

or_file-IsSafe :
    (extension : String → Option String) (mime out : String)
    → IsPlain extension
    → every allowed out ≡ true
    → begins is_dot out ≡ false
    → len out ≤ name_max
    → IsSafe (or_file (extension mime) out)
unfolding IsSafe
or_file-IsSafe extension mime String.[] plain e d l =
    unfold IsSafe in file-IsSafe extension mime (extension mime) plain refl
or_file-IsSafe extension mime (String.◌∷◌ c s) plain e d l =
    (e, d, l, omega (arith, length-cons c s))

-- The name a file is written under is safe, whatever name and type the other side sends: no slash,
-- no colon and no control character is in it, it has no leading dot, it is not empty, and it is
-- no longer than the cap. The extensions known for mime types are plain and short.
pub safe_name-IsSafe :
    (extension : String → Option String) (name mime : String)
    → IsPlain extension
    → IsSafe (safe_name extension name mime)
unfolding safe_name
safe_name-IsSafe extension name mime plain =
    let all = every-shorten allowed (count (cleaned name)) (cleaned name) (cleaned-allowed name) in
    let dot = begins-shorten is_dot (count (cleaned name)) (cleaned name) (cleaned-dot name) in
    let short = len-shorten (count (cleaned name)) (cleaned name) (omega arith) in
    or_file-IsSafe extension mime (shorten (count (cleaned name)) (cleaned name)) plain all dot
      short
