-- ===== src/Backlog/Order.antt =====
-- crates/silta/src/backlog.rs: what leaves the queue leaves it from the front, and is counted.
use mathlib.Core.List.{reverse}
use mathlib.Core.List.{append_assoc, reverse-reverse, reverse-cons}
use silta.Common.{
  ℕ, ◌+◌, ◌≡◌, refl, ap, sym, ◌∙◌, List, [], ◌∷◌, ◌++◌, arith, length, length-append, Bool-cases,
  inl, inr, leb,
}
use silta.Backlog.Queue.{
  Backlog, expired, evict, shrink, capacity, push, drain, push_front_all, restore,
}

module _ {ℓ} {A : Type ℓ} where
  -- `ys` is `xs` without its first `n` elements
  abbrev pub FromFront : List A → ℕ → List A → Type ℓ
  FromFront xs n ys = (gone : List A) × (gone ++ ys ≡ xs) × (length gone ≡ n)

  FromFront-refl : (xs : List A) → FromFront xs 0 xs
  FromFront-refl xs = ([], refl, refl)

  FromFront-cons :
      (x : A) (xs ys : List A) (n : ℕ) → FromFront xs n ys → FromFront (x ∷ xs) (n + 1) ys
  FromFront-cons x xs ys n (gone, e, l) = (x ∷ gone, ap (λ r. x ∷ r) e, omega arith)

  pub FromFront-trans :
      (xs ys zs : List A) (m n : ℕ)
      → FromFront xs m ys
      → FromFront ys n zs
      → FromFront xs (m + n) zs
  FromFront-trans xs ys zs m n (g, e, l) (h, f, k) =
      (g ++ h, append_assoc g h zs ∙ ap (λ r. g ++ r) f ∙ e, omega (arith, length-append g h))

  FromFront-append :
      (xs ys zs : List A) (n : ℕ) → FromFront xs n ys → FromFront (xs ++ zs) n (ys ++ zs)
  FromFront-append xs ys zs n (g, e, l) = (g, sym (append_assoc g ys zs) ∙ ap (λ r. r ++ zs) e, l)

module _ {ℓ} {A : Type ℓ} where
  evict-front :
      (age now : ℕ) (xs : List (ℕ × A)) → FromFront xs (evict age now xs).1 (evict age now xs).0
  unfolding evict
  evict-front age now [] = FromFront-refl []
  evict-front age now ((ts, x) ∷ rest) = elim (Bool-cases (expired age now ts)) [
    | inl old ↦ rw old (FromFront-cons (ts, x) rest _ _ (evict-front age now rest))
    | inr young ↦ rw young (FromFront-refl _)
  ]

  shrink-front : (cap : ℕ) (xs : List (ℕ × A)) → FromFront xs (shrink cap xs).1 (shrink cap xs).0
  unfolding shrink
  shrink-front cap [] = FromFront-refl []
  shrink-front cap (x ∷ rest) = elim (Bool-cases (leb cap (length (x ∷ rest)))) [
    | inl full ↦ rw full (FromFront-cons x rest _ _ (shrink-front cap rest))
    | inr room ↦ rw room (FromFront-refl _)
  ]

  push_front_all-append : (xs queue : List (ℕ × A)) → push_front_all xs queue ≡ reverse xs ++ queue
  unfolding push_front_all
  push_front_all-append [] queue = refl
  push_front_all-append (x ∷ xs) queue =
      push_front_all-append xs (x ∷ queue)
      ∙ sym (ap (λ r. r ++ queue) (reverse-cons x xs) ∙ append_assoc (reverse xs) (x ∷ []) queue)

  trim-front :
      (cap age now : ℕ) (xs : List (ℕ × A))
      → let (fresh, old) = evict age now xs in
        let (kept, more) = shrink cap fresh in FromFront xs (old + more) kept
  trim-front cap age now xs =
      FromFront-trans xs (evict age now xs).0 _ _ _ (evict-front age now xs)
        (shrink-front cap (evict age now xs).0)

  -- A push appends the item to what is left of the queue, and what left it are its oldest items,
  -- as many as it reports.
  pub push-front :
      (b : Backlog A) (ts : ℕ) (item : A) (now : ℕ)
      → FromFront (b.items ++ (ts, item) ∷ []) (push b ts item now).1 (push b ts item now).0.items
  unfolding push
  push-front b ts item now =
      FromFront-append b.items _ ((ts, item) ∷ []) _
        (trim-front (capacity b) b.max_age_ms now b.items)

  -- Items put back stand in front of the queue in the order given; what leaves is the oldest of
  -- them all, as many as reported.
  pub restore-front :
      (b : Backlog A) (back : List (ℕ × A)) (now : ℕ)
      → FromFront (back ++ b.items) (restore b back now).1 (restore b back now).0.items
  unfolding restore
  restore-front b back now =
      rw (push_front_all-append, reverse-reverse)
        (trim-front (capacity b + 1) b.max_age_ms now (back ++ b.items))

  -- A drain hands over all the queue but the expired items at its front, and leaves it empty.
  pub drain-front :
      (b : Backlog A) (now : ℕ)
      → FromFront b.items (drain b now).2 (drain b now).1 × ((drain b now).0.items ≡ [])
  unfolding drain
  drain-front b now = (evict-front b.max_age_ms now b.items, refl)

module _ {ℓ} {A : Type ℓ} where
  pub length-FromFront : (xs ys : List A) (n : ℕ) → FromFront xs n ys → length xs ≡ n + length ys
  length-FromFront xs ys n (gone, e, l) =
      omega (arith, length-append gone ys, ap (λ (r : List A). length r) e)

module _ {ℓ} {A : Type ℓ} where
  -- what a call leaves in the queue and what it reports gone make up what was there
  pub length-push :
      (b : Backlog A) (ts : ℕ) (item : A) (now : ℕ)
      → (push b ts item now).1 + length (push b ts item now).0.items ≡ length b.items + 1
  length-push b ts item now = omega (
    arith,
    length-FromFront (b.items ++ (ts, item) ∷ []) (push b ts item now).0.items
        (push b ts item now).1 (push-front b ts item now),
    length-append b.items ((ts, item) ∷ []),
  )

  pub length-drain :
      (b : Backlog A) (now : ℕ) → (drain b now).2 + length (drain b now).1 ≡ length b.items
  length-drain b now =
      omega (arith, length-FromFront b.items (drain b now).1 (drain b now).2 (drain-front b now).0)

  pub length-restore :
      (b : Backlog A) (back : List (ℕ × A)) (now : ℕ)
      → (restore b back now).1 + length (restore b back now).0.items ≡ length back + length b.items
  length-restore b back now = omega (
    arith,
    length-FromFront (back ++ b.items) (restore b back now).0.items (restore b back now).1
        (restore-front b back now),
    length-append back b.items,
  )
