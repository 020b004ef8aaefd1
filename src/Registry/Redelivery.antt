-- ===== src/Registry/Redelivery.antt =====
-- crates/siltad/src/daemon.rs: what the next connection of a session is handed of the events that
-- the last one had not acknowledged.
use mathlib.Core.List.{append-nil}
use mathlib.Core.Path.{subst}
use text.Mathlib.TextPositions.{eq_refl}
use silta.Common.{
  ℕ, ◌+◌, String, ◌≡◌, refl, sym, ap, ap₂, ◌∙◌, Option, none, some, [], ◌++◌, arith, Bool-cases,
  inl, inr, is_empty,
}
use silta.Common.Assoc.{lookup, insert, lookup-insert, lookup-remove}
use silta.Protocol.{Event}
use silta.Backlog.Queue
use silta.Backlog.Queue.{Backlog, new}
use silta.Backlog.Order.{FromFront, FromFront-trans, restore-front, drain-front}
use silta.Registry.Table.{
  Registry, claim, take_backlog, release, restore, leave, flying, waiting, taken, is_connected,
}

module _ {Channel : Type 0} where
  -- the backlog of a session after what was in flight came back
  restore-returned :
      (r : Registry Channel) (s : String) (now : ℕ)
      → FromFront
          (flying r s ++ (waiting r s).items)
          (restore r s now).2
          (waiting (restore r s now).0 s).items
        × (flying (restore r s now).0 s ≡ [])
  unfolding restore
  restore-returned r s now = elim (Bool-cases (is_empty (flying r s))) [
    | inl none_flying ↦
        (([], ground arith, ground arith), ground (arith, eq_refl s, lookup-remove s s r.inflight))
    | inr some_flying ↦
        let front = restore-front (waiting r s) (flying r s) now in
        let b = (Queue.restore (waiting r s) (flying r s) now).0 in
        (
          (
            front.0,
            ground (arith, front.1, eq_refl s, lookup-insert s s b r.backlogs),
            ground (arith, front.2),
          ),
          ground (arith, eq_refl s, lookup-remove s s r.inflight),
        )
  ]

  -- what a session takes from its backlog is in flight behind what was
  taken-front :
      (r : Registry Channel) (s : String) (o : Option (Backlog Event)) (now : ℕ)
      → lookup s r.backlogs ≡ o
      → let (r', items, evicted) = taken r s o now in
        FromFront (waiting r s).items evicted items
        × (flying r' s ≡ flying r s ++ items)
        × ((waiting r' s).items ≡ [])
  taken-front r s none now h = (
    ([], unfold new in ground arith, refl),
    sym (append-nil (flying r s)),
    unfold new in ground arith,
  )
  taken-front r s (some b) now h =
      let (b', items, evicted) = Queue.drain b now in
      let front = drain-front b now in
      (
        (front.0.0, ground (arith, front.0.1), front.0.2),
        ground (
          arith,
          eq_refl s,
          lookup-insert s s (flying r s ++ items) r.inflight,
          append-nil (flying r s),
        ),
        ground (arith, eq_refl s, lookup-insert s s b' r.backlogs, front.1),
      )

  -- the handover, with nobody between the sections of the two calls
  abbrev pub Undisturbed : Registry Channel → String → ℕ → ℕ → Type 0
  Undisturbed r s now later =
      let (r', returned, lost) = release r s now in
      let (r'', items, expired) = take_backlog r' s later in
      FromFront (flying r s ++ (waiting r s).items) (lost + expired) items
      × (flying r'' s ≡ items)
      × ((waiting r'' s).items ≡ [])

  redelivery : (r : Registry Channel) (s : String) (now later : ℕ) → Undisturbed r s now later
  unfolding take_backlog release
  redelivery r s now later =
      let (r', returned, lost) = release r s now in
      let (front, empty) = restore-returned (leave r s) s now in
      let (next, handed, none_waits) = taken-front r' s (lookup s r'.backlogs) later refl in
      (
        FromFront-trans (flying r s ++ (waiting r s).items) (waiting r' s).items
            (take_backlog r' s later).1 lost (take_backlog r' s later).2 front next,
        handed ∙ ap (λ l. l ++ (take_backlog r' s later).1) empty,
        none_waits,
      )

  -- the handover, where the new connection comes between the sections of the claim's drop
  abbrev pub Overtaken : Registry Channel → String → Channel → ℕ → ℕ → Type 0
  Overtaken r s tx now later =
      let r' = record (leave r s) { inner = insert s tx (leave r s).inner } in
      let (r'', items, expired) = take_backlog r' s later in
      let (after, returned, lost) = restore r'' s now in
      (claim (leave r s) s tx ≡ some r')
      × FromFront (waiting r s).items expired items
      × (flying after s ≡ [])
      × FromFront (flying r s ++ items) lost (waiting after s).items

  overtaken :
      (r : Registry Channel) (s : String) (tx : Channel) (now later : ℕ)
      → Overtaken r s tx now later
  unfolding take_backlog claim is_connected
  overtaken r s tx now later =
      let r' : Registry Channel = record (leave r s) { inner = insert s tx (leave r s).inner } in
      let (r'', items, expired) = take_backlog r' s later in
      let (next, handed, none_waits) = taken-front r' s (lookup s r'.backlogs) later refl in
      let (front, empty) = restore-returned r'' s now in
      (
        ground (arith, eq_refl s, lookup-remove s s r.inner),
        next,
        empty,
        subst (λ l. FromFront l (restore r'' s now).2 (waiting (restore r'' s now).0 s).items)
            (ap₂ (λ x y. x ++ y) handed none_waits ∙ append-nil (flying r s ++ items)) front,
      )

  -- When a connection goes away and another takes the session over undisturbed, what the new one is
  -- handed is all that was in flight, in its order, and after it what waited, less the oldest that
  -- the two calls report evicted; it is now in flight, and nothing waits. But the claim's drop frees
  -- the session before it puts back what was in flight: a new connection that claims it and takes
  -- the backlog in between is handed only what waited, less what expired, and then that too is
  -- taken out of flight, and waits behind the rest, less the oldest, for the connection after it.
  pub handover :
      (r : Registry Channel) (s : String) (tx : Channel) (now later : ℕ)
      → Undisturbed r s now later × Overtaken r s tx now later
  handover r s tx now later = (redelivery r s now later, overtaken r s tx now later)
