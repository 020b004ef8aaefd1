-- ===== src/Backlog/Queue.antt =====
-- crates/silta/src/backlog.rs: the bounded queue of items that wait for a session. Timestamps
-- and ages are `u64` milliseconds.
use mathlib.Core.List.{reverse}
use silta.Common.{
  ℕ, ◌+◌, max, Bool, List, [], ◌∷◌, ◌++◌, ltb, leb, if◌then◌else◌, saturating_add, length,
}

pub record Backlog {ℓ} (A : Type ℓ) : Type ℓ where
  pub items : List (ℕ × A)
  pub max_len : ℕ
  pub max_age_ms : ℕ

abbrev pub expired : ℕ → ℕ → ℕ → Bool
expired max_age_ms now ts = ltb (saturating_add ts max_age_ms) now

module _ {ℓ} {A : Type ℓ} where
  unfoldable pub new : ℕ → ℕ → Backlog A
  new max_len max_age_ms = record { items = []; max_len = max_len; max_age_ms = max_age_ms }

  -- the loop of `evict_expired`: what is left, and how many went
  unfoldable pub evict : ℕ → ℕ → List (ℕ × A) → List (ℕ × A) × ℕ
  evict age now [] = ([], 0)
  evict age now ((ts, x) ∷ rest) =
      let (kept, evicted) = evict age now rest in
      if expired age now ts then (kept, evicted + 1) else ((ts, x) ∷ rest, 0)

  -- `while items.len() >= cap { pop_front }`, for a cap of at least one
  unfoldable pub shrink : ℕ → List (ℕ × A) → List (ℕ × A) × ℕ
  shrink cap [] = ([], 0)
  shrink cap (x ∷ rest) =
      let (kept, evicted) = shrink cap rest in
      if leb cap (length (x ∷ rest)) then (kept, evicted + 1) else (x ∷ rest, 0)

  abbrev pub capacity : Backlog A → ℕ
  capacity b = max b.max_len 1

  unfoldable pub push : Backlog A → ℕ → A → ℕ → Backlog A × ℕ
  push b ts item now =
      let (fresh, old) = evict b.max_age_ms now b.items in
      let (kept, more) = shrink (capacity b) fresh in
      (record b { items = kept ++ (ts, item) ∷ [] }, old + more)

  unfoldable pub drain : Backlog A → ℕ → Backlog A × List (ℕ × A) × ℕ
  drain b now =
      let (fresh, evicted) = evict b.max_age_ms now b.items in
      (record b { items = [] }, fresh, evicted)

  -- `for item in items.into_iter().rev() { push_front(item) }`
  unfoldable pub push_front_all : List (ℕ × A) → List (ℕ × A) → List (ℕ × A)
  push_front_all [] queue = queue
  push_front_all (x ∷ reversed) queue = push_front_all reversed (x ∷ queue)

  unfoldable pub restore : Backlog A → List (ℕ × A) → ℕ → Backlog A × ℕ
  restore b back now =
      let (fresh, old) = evict b.max_age_ms now (push_front_all (reverse back) b.items) in
      let (kept, more) = shrink (capacity b + 1) fresh in (record b { items = kept }, old + more)

  unfoldable pub len : Backlog A → ℕ
  len b = length b.items
