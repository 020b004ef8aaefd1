-- ===== src/Registry/Conserved.antt =====
-- crates/siltad/src/daemon.rs: no event of a session is lost in silence or doubled, however the
-- threads interleave. Events are counted by any test of them.
use silta.Common.{
  ℕ, ◌+◌, String, ◌≡◌, refl, ap, Bool, Option, none, some, List, [], ◌∷◌, ◌++◌, length,
  length-append, arith, Option-cases, inl, inr,
}
use silta.Common.Assoc.{lookup}
use silta.Protocol.{Event}
use silta.Registry.Table.{
  Registry, Sent, Stamped, DeliverError, not_connected, queue_full, claim, ack, deliver, sending,
  drained, take_flight, flying, waiting,
}
use silta.Registry.Accounting.{
  Held, for_backlog, for_flight, returning, Tally, Op, arrives, connects, drains, acks, leaves,
  takes_back, moves, goes_on, stamped_of, in_hand, take_held, noted, with_acked, claiming, put,
  going_on, step, steps,
}
use silta.Registry.Counts.{
  count, count-append, owned, enqueue-count, put_back-count, drained-count, put_in_flight-count,
  waiting-put_in_flight, ack-count, waiting-ack, take_flight-count, sending-count, waiting-sending,
  sent_count, acked_count, count-in_hand, count-take_held, held_count,
}

module _ {Channel : Type 0} where
  -- Of whatever test of events: what the session has, what it acknowledged and what was evicted,
  -- which are as many as reported, are as many as there were and as came in.
  abbrev pub Conserves : Registry Channel → String → Tally → List Stamped → Type 0
  Conserves r s t before =
      (lost : List Stamped) × (length lost ≡ t.evicted)
      × ((p : Stamped → Bool)
          → owned p r s t.held + count p t.acked + count p lost
            ≡ count p before + count p t.accepted)

  -- the same session, after a step that evicts `gone`
  weighed :
      (r r' : Registry Channel) (s : String) (t t' : Tally) (before gone : List Stamped)
      → length gone + t.evicted ≡ t'.evicted
      → ((p : Stamped → Bool)
          → owned p r' s t'.held + count p t'.acked + count p gone + count p t.accepted
            ≡ owned p r s t.held + count p t.acked + count p t'.accepted)
      → Conserves r s t before
      → Conserves r' s t' before
  weighed r r' s t t' before gone n even (lost, m, h) = (
    gone ++ lost,
    omega (arith, length-append gone lost),
    λ p. omega (arith, count-append p gone lost, even p, h p),
  )

  noted-Conserves :
      (r r' : Registry Channel) (s : String) (answer : Option DeliverError) (ts : ℕ) (e : Event)
      (t : Tally) (before : List Stamped)
      → waiting r' s ≡ waiting r s
      → ((p : Stamped → Bool)
          → count p (flying r' s) ≡ count p (flying r s) + sent_count p answer (ts, e))
      → Conserves r s t before
      → Conserves r' s (noted answer ts e t) before
  unfolding count
  noted-Conserves r r' s none ts e t before w f h =
      weighed r r' s t (noted none ts e t) before [] (omega arith) (λ p. rw w (omega (arith, f p)))
        h
  noted-Conserves r r' s (some not_connected) ts e t before w f h =
      weighed r r' s t (noted (some not_connected) ts e t) before [] (omega arith)
        (λ p. rw w (omega (arith, f p, count-in_hand p (for_backlog ts e) t.held))) h
  noted-Conserves r r' s (some queue_full) ts e t before w f h =
      weighed r r' s t t before [] (omega arith) (λ p. rw w (omega (arith, f p))) h

  with_acked-Conserves :
      (r r' : Registry Channel) (s : String) (found : Option Stamped) (t : Tally)
      (before : List Stamped)
      → waiting r' s ≡ waiting r s
      → ((p : Stamped → Bool) → count p (flying r' s) + acked_count p found ≡ count p (flying r s))
      → Conserves r s t before
      → Conserves r' s (with_acked found t) before
  unfolding count
  with_acked-Conserves r r' s none t before w f h =
      weighed r r' s t t before [] (omega arith) (λ p. rw w (omega (arith, f p))) h
  with_acked-Conserves r r' s (some x) t before w f h =
      weighed r r' s t (with_acked (some x) t) before [] (omega arith)
        (λ p. rw w (omega (arith, f p))) h

  put-even :
      (r : Registry Channel) (s : String) (h : Held) (now : ℕ) (t : Tally)
      → let (r', t') = put r s h now t in
        (gone : List Stamped) × (length gone + t.evicted ≡ t'.evicted)
        × ((p : Stamped → Bool)
            → owned p r' s t'.held + count p t'.acked + count p gone + count p t.accepted
              ≡ owned p r s t.held + count p (stamped_of h) + count p t.acked + count p t'.accepted)
  unfolding count
  put-even r s (for_backlog ts e) now t =
      let (gone, n, even, same) = enqueue-count r s ts e now in
      (gone, omega arith, λ p. omega (arith, even p, ap (λ l. count p l) same))
  put-even r s (for_flight items) now t = (
    [],
    omega arith,
    λ p. omega (
      arith,
      put_in_flight-count r s items p,
      ap (λ b. count p b.items) (waiting-put_in_flight r s items),
    ),
  )
  put-even r s (returning items) now t =
      let (gone, n, even, same) = put_back-count r s items now in
      (gone, omega arith, λ p. omega (arith, even p, ap (λ l. count p l) same))

  going_on-Conserves :
      (r : Registry Channel) (s : String) (now n : ℕ) (t : Tally) (o : Option (Held × List Held))
      (before : List Stamped)
      → ((p : Stamped → Bool)
          → held_count p o (count p (in_hand t.held)) ≡ count p (in_hand t.held))
      → Conserves r s t before
      → let (r', t') = going_on r s now t o in Conserves r' s t' before
  going_on-Conserves r s now n t none before e h = h
  going_on-Conserves r s now n t (some (x, others)) before e h =
      let (r', t') = put r s x now (record t { held = others }) in
      let (gone, m, even) = put-even r s x now (record t { held = others }) in
      weighed r r' s t t' before gone m (λ p. omega (arith, even p, e p)) h

  claiming-Conserves :
      (r : Registry Channel) (s : String) (tx : Channel) (t : Tally) (before : List Stamped)
      → Conserves r s t before
      → Conserves (claiming r (claim r s tx)) s t before
  unfolding claim
  claiming-Conserves r s tx t before h = elim (Option-cases (claim r s tx)) [
    | inl busy ↦ rw busy h
    | inr (r', free) ↦ rw free (
        weighed r r' s t t before [] (unfold count in omega arith)
          (λ p. unfold count in ground arith) h)
  ]

module _ {Channel : Type 0} (try_send : Channel → Event → Channel × Sent) where
  step-Conserves :
      (r : Registry Channel) (s : String) (op : Op Channel) (t : Tally) (before : List Stamped)
      → Conserves r s t before
      → let (r', t') = step try_send r s op t in Conserves r' s t' before
  unfolding step deliver count
  step-Conserves r s (arrives e ts) t before h =
      let (r', answer) = sending try_send r s (lookup s r.inner) e ts in
      noted-Conserves r r' s answer ts e t before
        (waiting-sending try_send r s (lookup s r.inner) e ts)
        (sending-count try_send r s (lookup s r.inner) e ts) h
  step-Conserves r s (connects tx) t before h = claiming-Conserves r s tx t before h
  step-Conserves r s (drains now) t before h =
      let (r', items, evicted) = drained r s (lookup s r.backlogs) now in
      let (gone, n, even, same) = drained-count r s (lookup s r.backlogs) now refl in
      weighed r r' s t _ before gone (omega arith)
        (λ p.
          omega
            (arith, even p, ap (λ l. count p l) same, count-in_hand p (for_flight items) t.held))
        h
  step-Conserves r s (acks id) t before h =
      let (r', found) = ack r s id in
      with_acked-Conserves r r' s found t before (waiting-ack r s id) (ack-count r s id) h
  step-Conserves r s leaves t before h = h
  step-Conserves r s takes_back t before h =
      let (r', items) = take_flight r s in
      weighed r r' s t _ before [] (omega arith)
        (λ p. omega (arith, take_flight-count r s p, count-in_hand p (returning items) t.held)) h
  step-Conserves r s (moves f) t before h = elim (Option-cases (lookup s r.inner)) [
    | inl away ↦ rw (step, away) h
    | inr (tx, there) ↦ rw (step, there) h
  ]
  step-Conserves r s (goes_on n now) t before h =
      going_on-Conserves r s now n t (take_held n t.held) before (λ p. count-take_held p n t.held) h

  -- Over any life of a session, whatever connects, acknowledges, fails or stalls, and however the
  -- threads of the daemon interleave between two holds of a lock: of any kind of events, as many as
  -- came in and were not reported dropped are acknowledged, evicted, in flight, in the backlog or in
  -- the hands of a thread that has yet to put them there. So none of them is lost in silence and
  -- none counts twice; and the evicted ones are as many as were reported.
  pub steps-Conserves :
      (r : Registry Channel) (s : String) (ops : List (Op Channel)) (t : Tally)
      (before : List Stamped)
      → Conserves r s t before
      → let (r', t') = steps try_send r s ops t in Conserves r' s t' before
  unfolding steps
  steps-Conserves r s [] t before h = h
  steps-Conserves r s (op ∷ rest) t before h =
      let (r', t') = step try_send r s op t in
      steps-Conserves r' s rest t' before (step-Conserves r s op t before h)
