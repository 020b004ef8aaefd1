-- ===== src/Examples/Files.antt =====
-- The transfers' theorems: a file of two reads, and an encoding in unary.
use Prim.Native.Char.{Char, code, char}
use Prim.Native.String.{String, len}
use mathlib.Core.Path.{subst}
use silta.Transfer.Text.{every}
use silta.Common.{
  str_eq, ℕ, zero, suc, ◌+◌, ◌≡◌, refl, ap, ap₂, ◌≤◌, ◌∙◌, Bool, true, false, Option, none, some,
  List, [], ◌∷◌, ◌==◌, if◌then◌else◌, arith, All,
}
use silta.Common.Assoc.{lookup, AllValues}
use silta.Protocol.{FileHeader}
use silta.Transfer.Disk.{Disk, content}
use silta.Transfer.Receiver.{path_for}
use silta.Transfer.Send.{send, concat}
use silta.Transfer.Names.{safe_name}
use silta.Transfer.SafeNames.{IsSafe, allowed, IsPlain, safe_name-IsSafe}
use silta.Transfer.Ops.{Op, steps, IsShort}
use silta.Transfer.Sizes.{IsBounded, steps-IsBounded}
use silta.Server.Connection.{Files}
use silta.Server.Files.{take_pieces}
use silta.Server.RoundTrip.{IsByte, take_pieces-send}

abbrev a_digit : Char
a_digit = char 97 tt

abbrev an_end : Char
an_end = char 98 tt

abbrev digits : ℕ → String → String
digits zero s = s
digits (suc n) s = String.◌∷◌ a_digit (digits n s)

abbrev encode : List ℕ → String
encode [] = String.[]
encode (b ∷ bytes) = digits b (String.◌∷◌ an_end (encode bytes))

abbrev put_first : ℕ → Option (List ℕ) → Option (List ℕ)
put_first b none = none
put_first b (some bytes) = some (b ∷ bytes)

abbrev read_from : ℕ → String → Option (List ℕ)
read_from n String.[] = some []
read_from n (String.◌∷◌ c s) =
    let more = read_from (suc n) s in
    let next = read_from 0 s in if code c == 97 then more else put_first n next

abbrev decode : String → Option (List ℕ)
decode s = read_from 0 s

read_from-digits :
    (k n : ℕ) (s : String)
    → read_from k (digits n (String.◌∷◌ an_end s)) ≡ put_first (k + n) (read_from 0 s)
read_from-digits k zero s = ap (λ i. put_first i (read_from 0 s)) (omega arith)
read_from-digits k (suc n) s =
    read_from-digits (suc k) n s ∙ ap (λ i. put_first i (read_from 0 s)) (omega arith)

decodes : (bytes : List ℕ) → All IsByte bytes → decode (encode bytes) ≡ some bytes
decodes [] all = refl
decodes (b ∷ bytes) all =
    read_from-digits 0 b (encode bytes) ∙ ap₂ put_first (omega arith) (decodes bytes all.1)

abbrev extension : String → Option String
extension mime = if str_eq mime "image/png" then some "png" else none

png_is : (b : Bool) (ext : String) → (if b then some "png" else none) ≡ some ext → "png" ≡ ext
png_is true ext h = ground arith
png_is false ext h = absurd (ground arith)

plain : IsPlain extension
unfolding every
plain mime ext h =
    subst (λ e. (every allowed e ≡ true) × (len e ≤ 95)) (png_is (str_eq mime "image/png") ext h)
      (refl, omega arith)

safe_name-IsSafe_example : IsSafe (safe_name extension "../..\\.x" "image/png")
safe_name-IsSafe_example = safe_name-IsSafe extension "../..\\.x" "image/png" plain

abbrev head : FileHeader
head = record { transfer = "$t"; name = "a/b.txt"; mime = "text/plain"; size = 3 }

abbrev file : List (List ℕ)
file = (7 ∷ []) ∷ (8 ∷ 9 ∷ []) ∷ []

abbrev files : Files
files = record {
  receiver = record { prefix = "bot-"; max_bytes = 10; in_progress = [] };
  received = [];
  failed = [];
}

abbrev disk : Disk
disk = record { files = (1 ∷ []) ∷ []; names = ("other", 0) ∷ [] }

take_pieces-send_example :
    let (f', d') = take_pieces extension decode files disk (send encode head file) in
    (lookup "$t" f'.received
      ≡ some (record { header = head; path = path_for extension decode "bot-" head }))
    × (content (path_for extension decode "bot-" head) d' ≡ some (7 ∷ 8 ∷ 9 ∷ []))
    × (lookup "$t" f'.receiver.in_progress ≡ none)
unfolding concat lookup AllValues
take_pieces-send_example =
    take_pieces-send extension decode encode decodes head file files disk
      (omega arith, (omega arith, tt)) (omega arith, (omega arith, (omega arith, tt))) refl
      (omega arith) (omega arith) refl (omega arith, tt)

abbrev ops : List Op
ops =
    Op.begins head true
    ∷ Op.brings (record { transfer = "$t"; data_base64 = "aab" }) none
    ∷ Op.brings (record { transfer = "$t"; data_base64 = "abab" }) (some 1)
    ∷ Op.ends (record { transfer = "$t" }) true
    ∷ []

bounded : IsBounded 10 files.receiver disk
unfolding AllValues
bounded = record { cap = refl; transfers = tt; files = (omega arith, tt) }

short : All (IsShort extension decode 10) ops
short = (tt, (omega arith, (omega arith, (tt, tt))))

steps-IsBounded_example :
    IsBounded 10
      (steps extension decode files.receiver disk ops).0
      (steps extension decode files.receiver disk ops).1
steps-IsBounded_example = steps-IsBounded extension decode 10 files.receiver disk ops bounded short
