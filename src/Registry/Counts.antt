-- ===== src/Registry/Counts.antt =====
-- crates/siltad/src/daemon.rs: how many events of a session that pass a test are where, before and
-- after each section of the registry's methods.
use text.Mathlib.TextPositions.{eq_refl}
use silta.Common.{
  ℕ, zero, suc, ◌+◌, String, ◌≡◌, refl, sym, ap, ◌∙◌, Bool, true, false, Option, none, some, List,
  [], ◌∷◌, ◌++◌, length, arith, Option-cases, inl, inr,
}
use silta.Common.Assoc.{lookup, insert, lookup-insert, lookup-remove}
use silta.Protocol.{Event}
use silta.Backlog.Queue
use silta.Backlog.Queue.{Backlog}
use silta.Backlog.Order.{drain-front, push-front, restore-front}
use silta.Registry.Table.{
  Registry, Sent, Stamped, DeliverError, enqueue, ack, sending, drained, put_in_flight, take_flight,
  put_back, flying, waiting, take_event,
}
use silta.Registry.Accounting.{Held, stamped_of, in_hand, keep_held, take_held}

abbrev pub bit : Bool → ℕ
bit true = 1
bit false = 0

-- how many of them pass the test
unfoldable pub count : (Stamped → Bool) → List Stamped → ℕ
count p [] = 0
count p (x ∷ xs) = bit (p x) + count p xs

pub count-append :
    (p : Stamped → Bool) (xs ys : List Stamped) → count p (xs ++ ys) ≡ count p xs + count p ys
unfolding count
count-append p [] ys = omega arith
count-append p (x ∷ xs) ys = omega (arith, count-append p xs ys)

-- `gone` and `ys` together are `xs`
count-split :
    (p : Stamped → Bool) (gone ys xs : List Stamped)
    → gone ++ ys ≡ xs
    → count p gone + count p ys ≡ count p xs
count-split p gone ys xs e = sym (count-append p gone ys) ∙ ap (λ l. count p l) e

abbrev others_of : Option (Stamped × List Stamped) → List Stamped
others_of none = []
others_of (some (_, others)) = others

abbrev found_count : (Stamped → Bool) → Option (Stamped × List Stamped) → ℕ → ℕ
found_count p none n = n
found_count p (some (x, others)) n = bit (p x) + count p others

count-take_event :
    (p : Stamped → Bool) (id : String) (xs : List Stamped)
    → found_count p (take_event id xs) (count p xs) ≡ count p xs
unfolding take_event count
count-take_event p id [] = refl
count-take_event p id ((ts, e) ∷ rest) = ground (arith, count-take_event p id rest)

abbrev pub acked_count : (Stamped → Bool) → Option Stamped → ℕ
acked_count p none = 0
acked_count p (some x) = bit (p x)

abbrev pub held_count : (Stamped → Bool) → Option (Held × List Held) → ℕ → ℕ
held_count p none n = n
held_count p (some (h, others)) n = count p (stamped_of h) + count p (in_hand others)

pub count-in_hand :
    (p : Stamped → Bool) (h : Held) (held : List Held)
    → count p (in_hand (h ∷ held)) ≡ count p (stamped_of h) + count p (in_hand held)
unfolding in_hand
count-in_hand p h held = count-append p (stamped_of h) (in_hand held)

count-keep_held :
    (p : Stamped → Bool) (h : Held) (o : Option (Held × List Held)) (n m : ℕ)
    → held_count p o n ≡ n
    → count p (stamped_of h) + n ≡ m
    → held_count p (keep_held h o) m ≡ m
count-keep_held p h none n m e f = refl
count-keep_held p h (some (x, others)) n m e f = omega (arith, count-in_hand p h others)

pub count-take_held :
    (p : Stamped → Bool) (n : ℕ) (held : List Held)
    → held_count p (take_held n held) (count p (in_hand held)) ≡ count p (in_hand held)
unfolding take_held
count-take_held p n [] = refl
count-take_held p zero (h ∷ held) = sym (count-in_hand p h held)
count-take_held p (suc n) (h ∷ held) =
    count-keep_held p h (take_held n held) (count p (in_hand held)) (count p (in_hand (h ∷ held)))
      (count-take_held p n held) (sym (count-in_hand p h held))

module _ {Channel : Type 0} where
  -- all that the session has: in flight, in the backlog and in the hands of threads
  abbrev pub owned : (Stamped → Bool) → Registry Channel → String → List Held → ℕ
  owned p r s held = count p (flying r s) + count p (waiting r s).items + count p (in_hand held)

  pub enqueue-count :
      (r : Registry Channel) (s : String) (ts : ℕ) (e : Event) (now : ℕ)
      → let (r', n, evicted) = enqueue r s ts e now in
        (gone : List Stamped) × (length gone ≡ evicted)
        × ((p : Stamped → Bool)
            → count p gone + count p (waiting r' s).items
              ≡ count p (waiting r s).items + bit (p (ts, e)))
        × (flying r' s ≡ flying r s)
  unfolding enqueue count
  enqueue-count r s ts e now =
      let (gone, split, n) = push-front (waiting r s) ts e now in
      let b = (Queue.push (waiting r s) ts e now).0 in
      let here : (lookup s (insert s b r.backlogs) ≡ some b) =
        ground (arith, eq_refl s, lookup-insert s s b r.backlogs) in
      (
        gone,
        n,
        λ p. rw here (
            count-split p gone b.items ((waiting r s).items ++ (ts, e) ∷ []) split
            ∙ count-append p (waiting r s).items ((ts, e) ∷ [])
            ∙ omega arith),
        refl,
      )

  pub put_back-count :
      (r : Registry Channel) (s : String) (items : List Stamped) (now : ℕ)
      → let (r', n, evicted) = put_back r s items now in
        (gone : List Stamped) × (length gone ≡ evicted)
        × ((p : Stamped → Bool)
            → count p gone + count p (waiting r' s).items
              ≡ count p items + count p (waiting r s).items)
        × (flying r' s ≡ flying r s)
  unfolding count
  put_back-count r s [] now = ([], refl, λ p. refl, refl)
  put_back-count r s (x ∷ items) now =
      let (gone, split, n) = restore-front (waiting r s) (x ∷ items) now in
      let b = (Queue.restore (waiting r s) (x ∷ items) now).0 in
      let here : (lookup s (insert s b r.backlogs) ≡ some b) =
        ground (arith, eq_refl s, lookup-insert s s b r.backlogs) in
      (
        gone,
        n,
        λ p. rw here (
            count-split p gone b.items ((x ∷ items) ++ (waiting r s).items) split
            ∙ count-append p (x ∷ items) (waiting r s).items),
        refl,
      )

  pub drained-count :
      (r : Registry Channel) (s : String) (o : Option (Backlog Event)) (now : ℕ)
      → lookup s r.backlogs ≡ o
      → let (r', items, evicted) = drained r s o now in
        (gone : List Stamped) × (length gone ≡ evicted)
        × ((p : Stamped → Bool)
            → count p gone + count p items + count p (waiting r' s).items
              ≡ count p (waiting r s).items)
        × (flying r' s ≡ flying r s)
  unfolding count
  drained-count r s none now e = ([], refl, λ p. omega arith, refl)
  drained-count r s (some b) now e =
      let (b', items, evicted) = Queue.drain b now in
      let front = drain-front b now in
      let here : (lookup s (insert s b' r.backlogs) ≡ some b') =
        ground (arith, eq_refl s, lookup-insert s s b' r.backlogs) in
      (
        front.0.0,
        front.0.2,
        λ p. rw (here, e, front.1) (omega (arith, count-split p front.0.0 items b.items front.0.1)),
        refl,
      )

  pub put_in_flight-count :
      (r : Registry Channel) (s : String) (items : List Stamped) (p : Stamped → Bool)
      → count p (flying (put_in_flight r s items) s) ≡ count p (flying r s) + count p items
  unfolding count
  put_in_flight-count r s [] p = omega arith
  put_in_flight-count r s (x ∷ items) p =
      let all = flying r s ++ x ∷ items in
      let here : (lookup s (insert s all r.inflight) ≡ some all) =
        ground (arith, eq_refl s, lookup-insert s s all r.inflight) in
      rw here (count-append p (flying r s) (x ∷ items))

  pub waiting-put_in_flight :
      (r : Registry Channel) (s : String) (items : List Stamped)
      → waiting (put_in_flight r s items) s ≡ waiting r s
  waiting-put_in_flight r s [] = refl
  waiting-put_in_flight r s (x ∷ items) = refl

  pub ack-count :
      (r : Registry Channel) (s id : String) (p : Stamped → Bool)
      → count p (flying (ack r s id).0 s) + acked_count p (ack r s id).1 ≡ count p (flying r s)
  unfolding ack
  ack-count r s id p = ground (
    arith,
    eq_refl s,
    count-take_event p id (flying r s),
    lookup-insert s s (others_of (take_event id (flying r s))) r.inflight,
  )

  pub waiting-ack : (r : Registry Channel) (s id : String) → waiting (ack r s id).0 s ≡ waiting r s
  unfolding ack
  waiting-ack r s id = elim (Option-cases (take_event id (flying r s))) [
    | inl nothing ↦ rw (nothing, ack) refl
    | inr ((found, others), h) ↦ rw (h, ack) refl
  ]

  pub take_flight-count :
      (r : Registry Channel) (s : String) (p : Stamped → Bool)
      → count p (flying (take_flight r s).0 s) ≡ 0
  unfolding count
  take_flight-count r s p = ground (arith, eq_refl s, lookup-remove s s r.inflight)

abbrev pub sent_count : (Stamped → Bool) → Option DeliverError → Stamped → ℕ
sent_count p none x = bit (p x)
sent_count p (some error) x = 0

module _ {Channel : Type 0} (try_send : Channel → Event → Channel × Sent) where
  pub sending-count :
      (r : Registry Channel) (s : String) (o : Option Channel) (e : Event) (ts : ℕ)
      (p : Stamped → Bool)
      → let (r', answer) = sending try_send r s o e ts in
        count p (flying r' s) ≡ count p (flying r s) + sent_count p answer (ts, e)
  unfolding count
  sending-count r s none e ts p = omega arith
  sending-count r s (some tx) e ts p =
      let list = flying r s in
      ground (
        arith,
        eq_refl s,
        lookup-insert s s list r.inflight,
        lookup-insert s s (list ++ (ts, e) ∷ []) r.inflight,
        count-append p list ((ts, e) ∷ []),
      )

  pub waiting-sending :
      (r : Registry Channel) (s : String) (o : Option Channel) (e : Event) (ts : ℕ)
      → waiting (sending try_send r s o e ts).0 s ≡ waiting r s
  waiting-sending r s none e ts = refl
  waiting-sending r s (some tx) e ts = ground arith
