-- ===== src/Examples/Sessions.antt =====
-- The registry's theorems, with a queue of one place for `try_send`: a list of what waits in it.
use silta.Common.{◌≡◌, ◌≢◌, refl, true, false, none, List, [], ◌∷◌, String, str_eq, ap}
use silta.Protocol.{Event, EventKind, Role, RoomKind}
use silta.Common.Assoc.{lookup}
use silta.Registry.Table.{Registry, Sent, new, ack}
use silta.Registry.Accounting.{Op, Tally, steps, in_hand}
use silta.Registry.Counts.{count}
use silta.Registry.Conserved.{Conserves, steps-Conserves}
use silta.Registry.Redelivery.{Undisturbed, Overtaken, handover}
use silta.Registry.Frame.{Same, steps-Same}
use silta.Registry.Delivery.{Acked, ack-Acked}
use silta.Backlog.Queue

abbrev message : String → Event
message id = record {
  kind = EventKind.message;
  person = "alice";
  role = Role.family;
  sender = "@alice:example.org";
  room_id = "!room";
  room = RoomKind.dm;
  event_id = id;
  ts = "2026-01-01T00:00:00Z";
  in_reply_to = none;
  thread = none;
  reacts_to = none;
  text = "hello";
  transcribed = false;
  attachments = [];
}

abbrev try_send : List Event → Event → List Event × Sent
try_send [] e = (e ∷ [], Sent.sent)
try_send (x ∷ xs) e = (x ∷ xs, Sent.full)

abbrev empty : Registry (List Event)
empty = new 1000

abbrev zero_tally : Tally
zero_tally = record { accepted = []; acked = []; evicted = 0; held = [] }

-- a claim's drop (`leaves`, `takes_back`, `goes_on`) with a new connection in its midst
abbrev ops : List (Op (List Event))
ops =
    Op.arrives (message "$1") 10
    ∷ Op.goes_on 0 10
    ∷ Op.connects []
    ∷ Op.drains 20
    ∷ Op.goes_on 0 20
    ∷ Op.arrives (message "$2") 30
    ∷ Op.arrives (message "$3") 40
    ∷ Op.acks "$2"
    ∷ Op.leaves
    ∷ Op.takes_back
    ∷ Op.connects []
    ∷ Op.drains 50
    ∷ Op.goes_on 1 2000
    ∷ []

none_before : Conserves empty "bot" zero_tally []
unfolding new lookup Queue.new count in_hand
none_before = ([], refl, λ p. refl)

steps-Conserves_example :
    Conserves
      (steps try_send empty "bot" ops zero_tally).0
      "bot"
      (steps try_send empty "bot" ops zero_tally).1
      []
steps-Conserves_example = steps-Conserves try_send empty "bot" ops zero_tally [] none_before

abbrev bot : String
bot = "bot"

abbrev other : String
other = "other"

different : bot ≢ other
different e = let clash : true ≡ false = ap (λ s. str_eq bot s) e in cc

steps-Same_example : Same "other" empty (steps try_send empty "bot" ops zero_tally).0
steps-Same_example = steps-Same try_send bot other empty ops zero_tally different

abbrev flew : Registry (List Event)
flew = record {
  inner = ("bot", []) ∷ [];
  backlogs = [];
  inflight = ("bot", (10, message "$1") ∷ (20, message "$2") ∷ []) ∷ [];
  max_age_ms = 1000;
}

ack-Acked_example : Acked "bot" "$2" flew (ack flew "bot" "$2")
ack-Acked_example = ack-Acked flew "bot" "$2"

handover_example : Undisturbed flew "bot" 30 40 × Overtaken flew "bot" [] 30 40
handover_example = handover flew "bot" [] 30 40
