-- ===== src/Transfer/Reading.antt =====
-- What a chunk takes from the file, crates/silta/src/transfer.rs (`read_chunk`).
use silta.Common.{
  ℕ, zero, suc, ◌-◌, ◌<◌, ◌≡◌, refl, sym, ap, ◌∙◌, ◌⊎◌, inl, inr, List, [], ◌∷◌, ◌++◌, length, drop,
  ltb, All, arith, Bool-cases,
}
use silta.Transfer.Disk.{take}
use silta.Transfer.Send.{read_chunk, rest_of, concat}

abbrev pub NonEmpty : List ℕ → Type 0
NonEmpty bytes = 0 < length bytes

pub append_assoc : (xs ys zs : List ℕ) → (xs ++ ys) ++ zs ≡ xs ++ (ys ++ zs)
append_assoc [] ys zs = refl
append_assoc (x ∷ xs) ys zs = ap (λ (l : List ℕ). x ∷ l) (append_assoc xs ys zs)

pub append_nil : (xs : List ℕ) → xs ++ [] ≡ xs
append_nil [] = refl
append_nil (x ∷ xs) = ap (λ (l : List ℕ). x ∷ l) (append_nil xs)

take-drop : (n : ℕ) (xs : List ℕ) → take n xs ++ drop n xs ≡ xs
take-drop zero xs = refl
take-drop (suc n) [] = refl
take-drop (suc n) (x ∷ xs) = ap (λ (l : List ℕ). x ∷ l) (take-drop n xs)

concat-rest_of :
    (bytes : List ℕ) (file : List (List ℕ)) → concat (rest_of bytes file) ≡ bytes ++ concat file
unfolding concat
concat-rest_of [] file = refl
concat-rest_of (b ∷ bytes) file = refl

rest_of-All :
    (bytes : List ℕ) (file : List (List ℕ)) → All NonEmpty file → All NonEmpty (rest_of bytes file)
rest_of-All [] file all = all
rest_of-All (b ∷ bytes) file all = (omega arith, all)

-- nothing is lost between a chunk and the rest of the file
pub read_chunk-concat :
    (room : ℕ) (file : List (List ℕ))
    → (read_chunk room file).0 ++ concat (read_chunk room file).1 ≡ concat file
unfolding read_chunk concat
read_chunk-concat zero file = refl
read_chunk-concat (suc room) [] = refl
read_chunk-concat (suc room) (ready ∷ file) =
    let (more, left) = read_chunk (suc room - length ready) file in
    elim (Bool-cases (ltb (length ready) (suc room))) [
      | inl some_room ↦ rw some_room (
          append_assoc ready more (concat left)
          ∙ ap (λ l. ready ++ l) (read_chunk-concat (suc room - length ready) file))
      | inr full ↦ rw full (
          ap (λ l. take (suc room) ready ++ l) (concat-rest_of (drop (suc room) ready) file)
          ∙ sym (append_assoc (take (suc room) ready) (drop (suc room) ready) (concat file))
          ∙ ap (λ l. l ++ concat file) (take-drop (suc room) ready))
    ]

pub read_chunk-All :
    (room : ℕ) (file : List (List ℕ)) → All NonEmpty file → All NonEmpty (read_chunk room file).1
unfolding read_chunk
read_chunk-All zero file all = all
read_chunk-All (suc room) [] all = tt
read_chunk-All (suc room) (ready ∷ file) all = elim (Bool-cases (ltb (length ready) (suc room))) [
  | inl some_room ↦ rw some_room (read_chunk-All (suc room - length ready) file all.1)
  | inr full ↦ rw full (rest_of-All (drop (suc room) ready) file all.1)
]

-- an empty chunk is the end of the file
pub read_chunk-NonEmpty :
    (room : ℕ) (file : List (List ℕ))
    → All NonEmpty file
    → (concat file ≡ []) ⊎ NonEmpty (read_chunk (suc room) file).0
unfolding read_chunk concat
read_chunk-NonEmpty room [] all = inl refl
read_chunk-NonEmpty room ([] ∷ file) all = absurd (omega (arith, all.0))
read_chunk-NonEmpty room ((b ∷ ready) ∷ file) all =
    elim (Bool-cases (ltb (length (b ∷ ready)) (suc room))) [
      | inl some_room ↦ inr (rw some_room (omega arith))
      | inr full ↦ inr (rw full (omega arith))
    ]
