-- ===== src/Registry/Frame.antt =====
-- crates/siltad/src/daemon.rs: a session's traffic is its own; acknowledgements and the order of
-- what goes back to the backlog.
use silta.Common.{
  ℕ, String, ◌≡◌, ◌≢◌, refl, ◌∙◌, false, Option, none, some, List, [], ◌∷◌, ◌++◌, arith,
  Option-cases, inl, inr, eq_iff, str_eq,
}
use silta.Common.Assoc.{lookup, lookup-insert, lookup-remove}
use silta.Protocol.{Event}
use silta.Backlog.Queue
use silta.Backlog.Queue.{Backlog}
use silta.Registry.Table.{
  Registry, Stamped, Sent, claim, enqueue, ack, deliver, flying, waiting, sending, take_event,
  drained, put_in_flight, put_back,
}
use silta.Registry.Accounting.{
  Held, for_backlog, for_flight, returning, Op, arrives, connects, drains, acks, leaves, takes_back,
  moves, goes_on, moved, put, going_on, take_held, step, steps, Tally,
}

module _ {Channel : Type 0} where
  -- what a session has: its queue, its events in flight, its backlog
  pub record Same (j : String) (r r' : Registry Channel) : Type 0 where
    pub channel : lookup j r'.inner ≡ lookup j r.inner
    pub in_flight : lookup j r'.inflight ≡ lookup j r.inflight
    pub backlog : lookup j r'.backlogs ≡ lookup j r.backlogs
    pub age : r'.max_age_ms ≡ r.max_age_ms

  Same-refl : (j : String) (r : Registry Channel) → Same j r r
  Same-refl j r = record { channel = refl; in_flight = refl; backlog = refl; age = refl }

  Same-trans : (j : String) (a b c : Registry Channel) → Same j a b → Same j b c → Same j a c
  Same-trans j a b c x y = record {
    channel = y.channel ∙ x.channel;
    in_flight = y.in_flight ∙ x.in_flight;
    backlog = y.backlog ∙ x.backlog;
    age = y.age ∙ x.age;
  }

module _ {Channel : Type 0} (s j : String) (other : str_eq s j ≡ false) where
  enqueue-Same :
      (r : Registry Channel) (ts : ℕ) (e : Event) (now : ℕ) → Same j r (enqueue r s ts e now).0
  unfolding enqueue
  enqueue-Same r ts e now =
      ground (arith, lookup-insert s j (Queue.push (waiting r s) ts e now).0 r.backlogs)

  sending-Same :
      (try_send : Channel → Event → Channel × Sent) (r : Registry Channel) (o : Option Channel)
      (e : Event) (ts : ℕ)
      → Same j r (sending try_send r s o e ts).0
  sending-Same try_send r none e ts = Same-refl j r
  sending-Same try_send r (some tx) e ts =
      let list = flying r s in
      ground (
        arith,
        lookup-insert s j list r.inflight,
        lookup-insert s j (list ++ (ts, e) ∷ []) r.inflight,
        lookup-insert s j (try_send tx e).0 r.inner,
      )

  claim-Same :
      (r : Registry Channel) (tx : Channel) (r' : Registry Channel)
      → claim r s tx ≡ some r'
      → Same j r r'
  unfolding claim
  claim-Same r tx r' h = ground (arith, lookup-insert s j tx r.inner)

  drained-Same :
      (r : Registry Channel) (o : Option (Backlog Event)) (now : ℕ) → Same j r (drained r s o now).0
  drained-Same r none now = Same-refl j r
  drained-Same r (some b) now = ground (arith, lookup-insert s j (Queue.drain b now).0 r.backlogs)

  put_in_flight-Same :
      (r : Registry Channel) (items : List Stamped) → Same j r (put_in_flight r s items)
  put_in_flight-Same r [] = Same-refl j r
  put_in_flight-Same r (x ∷ items) =
      ground (arith, lookup-insert s j (flying r s ++ x ∷ items) r.inflight)

  ack-Same : (r : Registry Channel) (id : String) → Same j r (ack r s id).0
  unfolding ack
  ack-Same r id = elim (Option-cases (take_event id (flying r s))) [
    | inl nothing ↦ rw (nothing, ack) (Same-refl j r)
    | inr ((found, others), h) ↦ rw (h, ack) (ground (arith, lookup-insert s j others r.inflight))
  ]

  put_back-Same :
      (r : Registry Channel) (items : List Stamped) (now : ℕ) → Same j r (put_back r s items now).0
  put_back-Same r [] now = Same-refl j r
  put_back-Same r (x ∷ items) now =
      ground (arith, lookup-insert s j (Queue.restore (waiting r s) (x ∷ items) now).0 r.backlogs)

  moved-Same :
      (r : Registry Channel) (f : Channel → Channel) (o : Option Channel) → Same j r (moved r s f o)
  moved-Same r f none = Same-refl j r
  moved-Same r f (some tx) = ground (arith, lookup-insert s j (f tx) r.inner)

  put-Same : (r : Registry Channel) (h : Held) (now : ℕ) (t : Tally) → Same j r (put r s h now t).0
  put-Same r (for_backlog ts e) now t = enqueue-Same r ts e now
  put-Same r (for_flight items) now t = put_in_flight-Same r items
  put-Same r (returning items) now t = put_back-Same r items now

  going_on-Same :
      (r : Registry Channel) (now : ℕ) (t : Tally) (o : Option (Held × List Held))
      → Same j r (going_on r s now t o).0
  going_on-Same r now t none = Same-refl j r
  going_on-Same r now t (some (h, others)) = put-Same r h now (record t { held = others })

  step-Same :
      (try_send : Channel → Event → Channel × Sent) (r : Registry Channel) (op : Op Channel)
      (t : Tally)
      → Same j r (step try_send r s op t).0
  unfolding step deliver
  step-Same try_send r (arrives e ts) t = sending-Same try_send r (lookup s r.inner) e ts
  step-Same try_send r (connects tx) t = elim (Option-cases (claim r s tx)) [
    | inl busy ↦ rw (busy, step) (Same-refl j r)
    | inr (r', free) ↦ rw (free, step) (claim-Same r tx r' free)
  ]
  step-Same try_send r (drains now) t = drained-Same r (lookup s r.backlogs) now
  step-Same try_send r (acks id) t = ack-Same r id
  step-Same try_send r leaves t = ground (arith, lookup-remove s j r.inner)
  step-Same try_send r takes_back t = ground (arith, lookup-remove s j r.inflight)
  step-Same try_send r (moves f) t = moved-Same r f (lookup s r.inner)
  step-Same try_send r (goes_on n now) t = going_on-Same r now t (take_held n t.held)

-- Nothing that happens to one session, however the threads interleave, touches another: its queue,
-- its events in flight and its backlog stay what they were.
pub steps-Same :
    {Channel : Type 0} (try_send : Channel → Event → Channel × Sent) (s j : String)
    (r : Registry Channel) (ops : List (Op Channel)) (t : Tally)
    → s ≢ j
    → Same j r (steps try_send r s ops t).0
unfolding steps
steps-Same try_send s j r [] t ne = Same-refl j r
steps-Same try_send s j r (op ∷ rest) t ne =
    let (r', t') = step try_send r s op t in
    Same-trans j r r' (steps try_send r' s rest t').0
      (step-Same s j (ground (arith, eq_iff s j)) try_send r op t)
      (steps-Same try_send s j r' rest t' ne)
