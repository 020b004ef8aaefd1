-- ===== src/Registry/Accounting.antt =====
-- crates/siltad/src/daemon.rs: every event of a session over its connections and disconnections,
-- with the threads of the daemon interleaved: a step is what one thread does under one hold of a
-- lock, and what it holds for its next one is in `held`. The steps come in any order.
use silta.Common.{ℕ, zero, suc, ◌+◌, String, Option, none, some, List, [], ◌∷◌, ◌++◌}
use silta.Common.Assoc.{lookup, insert}
use silta.Protocol.{Event}
use silta.Registry.Table.{
  Registry, Sent, Stamped, DeliverError, not_connected, queue_full, claim, enqueue, ack, deliver,
  drained, put_in_flight, take_flight, put_back, leave,
}

-- what a thread has in hand between two of its steps
pub data Held : Type 0 where
  -- `dispatch`: an event that could not be sent, for the backlog
  for_backlog : ℕ → Event → Held
  -- `take_backlog`: what it drained, to be in flight
  for_flight : List Stamped → Held
  -- `restore`: what was in flight, for the backlog
  returning : List Stamped → Held

-- what happened to the events of the session, and what is under way
pub record Tally : Type 0 where
  pub accepted : List Stamped
  pub acked : List Stamped
  pub evicted : ℕ
  pub held : List Held

-- One step. An event of a room comes in and is sent if it can be (with its timestamp); a connection
-- claims the session, drains the backlog, acknowledges an event, gives the session up, takes back
-- what is in flight; the queue to the session moves on (its writer takes from it, or closes it); or
-- a thread that has something in hand goes on with it, which one by its place, and the time.
pub data Op (Channel : Type 0) : Type 0 where
  arrives : Event → ℕ → Op Channel
  connects : Channel → Op Channel
  drains : ℕ → Op Channel
  acks : String → Op Channel
  leaves takes_back : Op Channel
  moves : (Channel → Channel) → Op Channel
  goes_on : ℕ → ℕ → Op Channel

abbrev pub stamped_of : Held → List Stamped
stamped_of (for_backlog ts e) = (ts, e) ∷ []
stamped_of (for_flight items) = items
stamped_of (returning items) = items

unfoldable pub in_hand : List Held → List Stamped
in_hand [] = []
in_hand (h ∷ held) = stamped_of h ++ in_hand held

abbrev pub keep_held : Held → Option (Held × List Held) → Option (Held × List Held)
keep_held h none = none
keep_held h (some (found, others)) = some (found, h ∷ others)

unfoldable pub take_held : ℕ → List Held → Option (Held × List Held)
take_held n [] = none
take_held zero (h ∷ held) = some (h, held)
take_held (suc n) (h ∷ held) = keep_held h (take_held n held)

-- an event that came in, by what `deliver` answered
abbrev pub noted : Option DeliverError → ℕ → Event → Tally → Tally
noted none ts e t = record t { accepted = (ts, e) ∷ t.accepted }
noted (some not_connected) ts e t = record t {
  accepted = (ts, e) ∷ t.accepted;
  held = for_backlog ts e ∷ t.held;
}
noted (some queue_full) ts e t = t

abbrev pub with_acked : Option Stamped → Tally → Tally
with_acked none t = t
with_acked (some found) t = record t { acked = found ∷ t.acked }

module _ {Channel : Type 0} where
  -- the queue to the session, if it is connected, in another state
  abbrev pub moved :
      Registry Channel → String → (Channel → Channel) → Option Channel → Registry Channel
  moved r s f none = r
  moved r s f (some tx) = record r { inner = insert s (f tx) r.inner }

  -- a claim of a session that is connected is refused and changes nothing
  abbrev pub claiming : Registry Channel → Option (Registry Channel) → Registry Channel
  claiming r none = r
  claiming r (some r') = r'

  -- what is in hand goes where it is for
  abbrev pub put : Registry Channel → String → Held → ℕ → Tally → Registry Channel × Tally
  put r s (for_backlog ts e) now t =
      let (r', waiting, evicted) = enqueue r s ts e now in
      (r', record t { evicted = evicted + t.evicted })
  put r s (for_flight items) now t = (put_in_flight r s items, t)
  put r s (returning items) now t =
      let (r', returned, evicted) = put_back r s items now in
      (r', record t { evicted = evicted + t.evicted })

  abbrev pub going_on :
      Registry Channel → String → ℕ → Tally → Option (Held × List Held) → Registry Channel × Tally
  going_on r s now t none = (r, t)
  going_on r s now t (some (h, others)) = put r s h now (record t { held = others })

module _ {Channel : Type 0} (try_send : Channel → Event → Channel × Sent) where
  unfoldable pub step : Registry Channel → String → Op Channel → Tally → Registry Channel × Tally
  step r s (arrives e ts) t =
      let (r', answer) = deliver try_send r s e ts in (r', noted answer ts e t)
  step r s (connects tx) t = (claiming r (claim r s tx), t)
  step r s (drains now) t =
      let (r', items, evicted) = drained r s (lookup s r.backlogs) now in
      (r', record t { evicted = evicted + t.evicted; held = for_flight items ∷ t.held })
  step r s (acks id) t = let (r', found) = ack r s id in (r', with_acked found t)
  step r s leaves t = (leave r s, t)
  step r s takes_back t =
      let (r', items) = take_flight r s in (r', record t { held = returning items ∷ t.held })
  step r s (moves f) t = (moved r s f (lookup s r.inner), t)
  step r s (goes_on n now) t = going_on r s now t (take_held n t.held)

  unfoldable pub steps :
      Registry Channel → String → List (Op Channel) → Tally → Registry Channel × Tally
  unfolding step
  steps r s [] t = (r, t)
  steps r s (op ∷ rest) t = let (r', t') = step r s op t in steps r' s rest t'
