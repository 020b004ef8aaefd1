-- ===== src/Backlog/Limits.antt =====
-- crates/silta/src/backlog.rs: the two bounds of the queue, by count and by age.
use mathlib.Core.List.{reverse}
use silta.Common.{
  ℕ, ◌+◌, ◌≤◌, ◌<◌, max, ◌≡◌, refl, ap, true, false, List, [], ◌∷◌, ◌++◌, arith, length,
  length-append, Bool-cases, inl, inr, leb, All, if◌then◌else◌,
}
use silta.Backlog.Queue.{
  Backlog, expired, evict, shrink, capacity, push, drain, push_front_all, restore,
}

module _ {ℓ} {A : Type ℓ} where
  length-shrink-lt : (cap : ℕ) (xs : List (ℕ × A)) → 0 < cap → length (shrink cap xs).0 < cap
  unfolding shrink
  length-shrink-lt cap [] h = h
  length-shrink-lt cap (x ∷ rest) h = elim (Bool-cases (leb cap (length (x ∷ rest)))) [
    | inl full ↦ rw full (length-shrink-lt cap rest h)
    | inr room ↦ rw room (ground arith)
  ]

  -- However the queue stood, after a push it holds at most `max_len` items, or one if that is 0.
  pub length-push-le :
      (b : Backlog A) (ts : ℕ) (item : A) (now : ℕ)
      → length (push b ts item now).0.items ≤ max b.max_len 1
  unfolding push
  length-push-le b ts item now =
      let fresh = (evict b.max_age_ms now b.items).0 in
      omega (
        arith,
        length-append (shrink (capacity b) fresh).0 ((ts, item) ∷ []),
        length-shrink-lt (capacity b) fresh (omega arith),
      )

  -- However many items come back, after a restore the queue holds at most `max_len`, or one.
  pub length-restore-le :
      (b : Backlog A) (back : List (ℕ × A)) (now : ℕ)
      → length (restore b back now).0.items ≤ max b.max_len 1
  unfolding restore
  length-restore-le b back now =
      let fresh = (evict b.max_age_ms now (push_front_all (reverse back) b.items)).0 in
      omega (arith, length-shrink-lt (capacity b + 1) fresh (omega arith))

  -- timestamps do not fall along the queue
  abbrev pub Ordered : List (ℕ × A) → Type ℓ
  Ordered [] = Unit
  Ordered ((ts, x) ∷ rest) = All (λ (y : ℕ × A). ts ≤ y.0) rest × Ordered rest

  abbrev pub unexpired : ℕ → ℕ → List (ℕ × A) → List (ℕ × A)
  unexpired age now [] = []
  unexpired age now ((ts, x) ∷ rest) =
      let later = unexpired age now rest in if expired age now ts then later else (ts, x) ∷ later

  unexpired-All :
      (age now ts : ℕ) (xs : List (ℕ × A))
      → expired age now ts ≡ false
      → All (λ (y : ℕ × A). ts ≤ y.0) xs
      → unexpired age now xs ≡ xs
  unexpired-All age now ts [] h a = refl
  unexpired-All age now ts ((ts', x) ∷ rest) h a =
      ground (arith, unexpired-All age now ts rest h a.1)

  evict-eq-unexpired :
      (age now : ℕ) (xs : List (ℕ × A)) → Ordered xs → (evict age now xs).0 ≡ unexpired age now xs
  unfolding evict
  evict-eq-unexpired age now [] o = refl
  evict-eq-unexpired age now ((ts, x) ∷ rest) o = elim (Bool-cases (expired age now ts)) [
    | inl old ↦ rw old (evict-eq-unexpired age now rest o.1)
    | inr young ↦ rw young (rw (unexpired-All age now ts rest young o.0))
  ]

  -- A drain of a queue in timestamp order hands over exactly the items within the age limit.
  pub drain-eq-unexpired :
      (b : Backlog A) (now : ℕ)
      → Ordered b.items
      → (drain b now).1 ≡ unexpired b.max_age_ms now b.items
  unfolding drain
  drain-eq-unexpired b now o = evict-eq-unexpired b.max_age_ms now b.items o

  -- the first of them is within the age limit
  abbrev pub StartsYoung : ℕ → ℕ → List (ℕ × A) → Type 0
  StartsYoung age now [] = Unit
  StartsYoung age now ((ts, x) ∷ rest) = expired age now ts ≡ false

  -- how a queue stands to what the eviction leaves of it
  abbrev pub Evicted : ℕ → ℕ → List (ℕ × A) → List (ℕ × A) × ℕ → Type ℓ
  Evicted age now xs (kept, evicted) =
      (gone : List (ℕ × A)) × (gone ++ kept ≡ xs)
      × All (λ (y : ℕ × A). expired age now y.0 ≡ true) gone
      × (length gone ≡ evicted)
      × StartsYoung age now kept

  evict-Evicted : (age now : ℕ) (xs : List (ℕ × A)) → Evicted age now xs (evict age now xs)
  unfolding evict
  evict-Evicted age now [] = ([], refl, tt, refl, tt)
  evict-Evicted age now ((ts, x) ∷ rest) = elim (Bool-cases (expired age now ts)) [
    | inr young ↦ rw young ([], refl, tt, refl, young)
    | inl old ↦
        let (gone, e, all, n, next) = evict-Evicted age now rest in
        rw old ((ts, x) ∷ gone, ap (λ r. (ts, x) ∷ r) e, (old, all), omega arith, next)
  ]

  -- Whatever the order of the timestamps in a queue: a drain loses the items over the age limit
  -- that stand before the first item within it, and as many as it reports. It hands over all the
  -- others in their order, items over the limit included where one within it stands before them,
  -- and leaves the queue empty.
  pub drain-Evicted :
      (b : Backlog A) (now : ℕ)
      → Evicted b.max_age_ms now b.items ((drain b now).1, (drain b now).2)
        × ((drain b now).0.items ≡ [])
  unfolding drain
  drain-Evicted b now = (evict-Evicted b.max_age_ms now b.items, refl)
