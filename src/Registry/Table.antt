-- ===== src/Registry/Table.antt =====
-- crates/siltad/src/daemon.rs: the registry of connected sessions, and `dispatch`. The queue to
-- a connection is tokio's bounded channel: its state is a parameter `Channel`, and what
-- `try_send` does a parameter `try_send`. What a method does under one hold of a lock is a definition
-- of its own. `deliver`, `enqueue`, `claim` and `ack` are one such section each; `take_backlog`,
-- `restore`, `release` and `dispatch` run several, between which other threads may come in: as
-- functions they are the undisturbed runs, and `Registry.Accounting` runs the sections in any order.
use silta.Common.{
  ℕ, String, Bool, Option, none, some, List, [], ◌∷◌, ◌++◌, str_eq, if◌then◌else◌, is_some,
  is_empty, length,
}
use silta.Common.Assoc.{Assoc, lookup, insert, remove}
use silta.Protocol.{Event}
use silta.Backlog.Queue
use silta.Backlog.Queue.{Backlog}

abbrev pub backlog_max : ℕ
backlog_max = 100

-- what `try_send` answers: sent, `TrySendError::Full`, `TrySendError::Closed`
pub data Sent : Type 0 where
  sent full closed : Sent

pub data DeliverError : Type 0 where
  not_connected queue_full : DeliverError

abbrev pub Stamped : Type 0
Stamped = ℕ × Event

pub record Registry (Channel : Type 0) : Type 0 where
  pub inner : Assoc Channel
  pub backlogs : Assoc (Backlog Event)
  pub inflight : Assoc (List Stamped)
  pub max_age_ms : ℕ

-- `entry(session).or_default()`, read
abbrev pub list_or_default : Option (List Stamped) → List Stamped
list_or_default none = []
list_or_default (some l) = l

-- `entry(session).or_insert_with(|| Backlog::new(BACKLOG_MAX, max_age))`, read
abbrev pub backlog_or_new : ℕ → Option (Backlog Event) → Backlog Event
backlog_or_new age none = Queue.new backlog_max age
backlog_or_new age (some b) = b

abbrev pub keep_first : Stamped → Option (Stamped × List Stamped) → Option (Stamped × List Stamped)
keep_first x none = none
keep_first x (some (found, others)) = some (found, x ∷ others)

-- `list.iter().position(|(_, event)| event.event_id == event_id)` and `list.remove(at)`
unfoldable pub take_event : String → List Stamped → Option (Stamped × List Stamped)
take_event id [] = none
take_event id ((ts, e) ∷ rest) =
    let later = take_event id rest in
    if str_eq e.event_id id then some ((ts, e), rest) else keep_first (ts, e) later

module _ {Channel : Type 0} where
  unfoldable pub new : ℕ → Registry Channel
  new max_age_ms = record { inner = []; backlogs = []; inflight = []; max_age_ms = max_age_ms }

  abbrev pub flying : Registry Channel → String → List Stamped
  flying r session = list_or_default (lookup session r.inflight)

  abbrev pub waiting : Registry Channel → String → Backlog Event
  waiting r session = backlog_or_new r.max_age_ms (lookup session r.backlogs)

  unfoldable pub is_connected : Registry Channel → String → Bool
  is_connected r session = is_some (lookup session r.inner)

  -- `channel` is the fresh queue that `mpsc::channel` makes
  unfoldable pub claim : Registry Channel → String → Channel → Option (Registry Channel)
  unfolding is_connected
  claim r session channel =
      if is_connected r session
      then none
      else some (record r { inner = insert session channel r.inner })

  unfoldable pub enqueue : Registry Channel → String → ℕ → Event → ℕ → Registry Channel × ℕ × ℕ
  enqueue r session ts event now =
      let (b, evicted) = Queue.push (waiting r session) ts event now in
      (record r { backlogs = insert session b r.backlogs }, Queue.len b, evicted)

  -- `take_backlog` under the lock of the backlogs
  abbrev pub drained :
      Registry Channel → String → Option (Backlog Event) → ℕ → Registry Channel × List Stamped × ℕ
  drained r session none now = (r, [], 0)
  drained r session (some b) now =
      let (b', items, evicted) = Queue.drain b now in
      (record r { backlogs = insert session b' r.backlogs }, items, evicted)

  -- `take_backlog` under the lock of what is in flight
  abbrev pub put_in_flight : Registry Channel → String → List Stamped → Registry Channel
  put_in_flight r session items =
      if is_empty items
      then r
      else record r { inflight = insert session (flying r session ++ items) r.inflight }

  abbrev pub taken :
      Registry Channel → String → Option (Backlog Event) → ℕ → Registry Channel × List Stamped × ℕ
  taken r session backlog now =
      let (r', items, evicted) = drained r session backlog now in
      (put_in_flight r' session items, items, evicted)

  unfoldable pub take_backlog : Registry Channel → String → ℕ → Registry Channel × List Stamped × ℕ
  take_backlog r session now = taken r session (lookup session r.backlogs) now

  abbrev pub removed :
      Registry Channel
      → String
      → Option (Stamped × List Stamped)
      → Registry Channel × Option Stamped
  removed r session none = (r, none)
  removed r session (some (found, others)) =
      (record r { inflight = insert session others r.inflight }, some found)

  unfoldable pub ack : Registry Channel → String → String → Registry Channel × Option Stamped
  ack r session event_id = removed r session (take_event event_id (flying r session))

  -- `restore` under the lock of what is in flight
  abbrev pub take_flight : Registry Channel → String → Registry Channel × List Stamped
  take_flight r session = (record r { inflight = remove session r.inflight }, flying r session)

  -- `restore` under the lock of the backlogs
  abbrev pub put_back : Registry Channel → String → List Stamped → ℕ → Registry Channel × ℕ × ℕ
  put_back r session items now =
      let (b, evicted) = Queue.restore (waiting r session) items now in
      if is_empty items
      then (r, 0, 0)
      else (record r { backlogs = insert session b r.backlogs }, length items, evicted)

  unfoldable pub restore : Registry Channel → String → ℕ → Registry Channel × ℕ × ℕ
  restore r session now = let (r', items) = take_flight r session in put_back r' session items now

  -- `Drop for Claim` under the lock of the queues
  abbrev pub leave : Registry Channel → String → Registry Channel
  leave r session = record r { inner = remove session r.inner }

  -- `Drop for Claim`
  unfoldable pub release : Registry Channel → String → ℕ → Registry Channel × ℕ × ℕ
  unfolding restore
  release r session now = restore (leave r session) session now

-- `Daemon::dispatch`'s answer; a dropped message is lost
pub data Dispatch : Type 0 where
  delivered : Dispatch
  -- how many wait, and how many were evicted for it
  queued : ℕ → ℕ → Dispatch
  dropped : Dispatch

-- `dispatch`, by what `deliver` answers
module _ {Channel : Type 0} where
  abbrev pub fall_back :
      Registry Channel → Option DeliverError → String → Event → ℕ → ℕ → Registry Channel × Dispatch
  fall_back r none session event ts now = (r, delivered)
  fall_back r (some not_connected) session event ts now =
      let (r', waiting, evicted) = enqueue r session ts event now in (r', queued waiting evicted)
  fall_back r (some queue_full) session event ts now = (r, dropped)

module _ {Channel : Type 0} (try_send : Channel → Event → Channel × Sent) where
  abbrev pub sending :
      Registry Channel
      → String
      → Option Channel
      → Event
      → ℕ
      → Registry Channel × Option DeliverError
  sending r session none event ts = (r, some not_connected)
  sending r session (some tx) event ts =
      let (tx', answer) = try_send tx event in
      let r' = record r { inner = insert session tx' r.inner } in
      let list = flying r session in
      elim answer [
        | sent ↦
            (record r' { inflight = insert session (list ++ (ts, event) ∷ []) r.inflight }, none)
        | full ↦ (record r' { inflight = insert session list r.inflight }, some queue_full)
        | closed ↦ (record r' { inflight = insert session list r.inflight }, some not_connected)
      ]

  unfoldable pub deliver :
      Registry Channel → String → Event → ℕ → Registry Channel × Option DeliverError
  deliver r session event ts = sending r session (lookup session r.inner) event ts

  unfoldable pub dispatch : Registry Channel → String → Event → ℕ → ℕ → Registry Channel × Dispatch
  unfolding deliver enqueue
  dispatch r session event ts now =
      let (r', answer) = deliver r session event ts in fall_back r' answer session event ts now
