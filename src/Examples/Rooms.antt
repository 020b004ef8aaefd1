-- ===== src/Examples/Rooms.antt =====
-- The routing's theorems on a configuration of one bot, two people and two sessions.
use silta.Common.{◌≡◌, refl, true, false, none, some, List, [], ◌∷◌, String, length, if◌then◌else◌}
use silta.Common.Assoc.{lookup, insert}
use silta.Common.Names.{contains, put}
use silta.Protocol.{Role, dm, group}
use silta.Config.Types.{PersonConfig, Receive, SendPolicy, SessionConfig, Config, ok}
use silta.Config.Validate.{
  validate, check_people, check_sessions, check_receive, check_addresses, claim_people, claim_rooms,
  is_user_id,
}
use silta.Config.Unique.{session-validated}
use silta.Config.Routing.{
  Routing, RoomShape, new, session, inbound, deliver, may_send, may_read, is_bot, person_for,
  is_group, people_in, same_index, owns_room, collect_people, all_listed,
}
use silta.Config.Privacy.{KnownAs, may_read-KnownAs, may_send-KnownAs, inbound-deliver}

abbrev bot : String
bot = "@bot:example.org"

abbrev alice : PersonConfig
alice = record { name = "alice"; role = Role.owner; addresses = "@alice:example.org" ∷ [] }

abbrev bob : PersonConfig
bob = record { name = "bob"; role = Role.family; addresses = "@bob:example.org" ∷ [] }

abbrev family : SessionConfig
family = record { name = "family"; receive = Receive.groups; send = SendPolicy.own; user = "f" }

abbrev private : SessionConfig
private = record {
  name = "private";
  receive = Receive.selective ("alice" ∷ []) [];
  send = SendPolicy.own;
  user = "p";
}

abbrev config : Config
config = record {
  socket = "/run/silta.sock";
  state_dir = "/var/lib/silta";
  matrix = record {
    homeserver_url = "https://example.org";
    user_id = bot;
    password = "secret";
    device_id = "D";
    device_name = "silta";
  };
  people = alice ∷ bob ∷ [];
  sessions = family ∷ private ∷ [];
  replay_window_secs = 600;
  inbox_max_age_days = 7;
  attachment_max_mb = 10;
  alert_grace_secs = 60;
}

abbrev routing : Routing
routing = record {
  bot = bot;
  people = alice ∷ bob ∷ [];
  by_address = ("@alice:example.org", 0) ∷ ("@bob:example.org", 1) ∷ [];
  sessions = family ∷ private ∷ [];
  by_name = ("family", 0) ∷ ("private", 1) ∷ [];
  by_room = [];
  by_person = ("alice", 1) ∷ [];
  all = none;
  groups = some 0;
}

abbrev direct : RoomShape
direct = record { direct = true; named = false }

abbrev members : List String
members = "@bot:example.org" ∷ "@alice:example.org" ∷ []

named : lookup "private" routing.by_name ≡ some 1
unfolding lookup
named = refl

not_its_room : same_index (lookup "!room" routing.by_room) 1 ≡ false
unfolding lookup
not_its_room = refl

reads : may_read routing "private" "!room" members direct ≡ some none
unfolding may_read owns_room people_in collect_people is_bot person_for lookup put contains is_group
    all_listed
reads = refl

sends : may_send routing "private" "!room" members direct ≡ some none
unfolding may_send owns_room people_in collect_people is_bot person_for lookup put contains is_group
    all_listed
sends = refl

a_member : contains members "@alice:example.org" ≡ true
unfolding contains
a_member = refl

not_bot : is_bot routing "@alice:example.org" ≡ false
unfolding is_bot
not_bot = refl

may_read-KnownAs_example : KnownAs routing ("alice" ∷ []) "@alice:example.org"
may_read-KnownAs_example =
    may_read-KnownAs routing "private" 1 "!room" members direct private ("alice" ∷ []) []
      "@alice:example.org" named refl refl refl not_its_room reads a_member not_bot

may_send-KnownAs_example : KnownAs routing ("alice" ∷ []) "@alice:example.org"
may_send-KnownAs_example =
    may_send-KnownAs routing "private" 1 "!room" members direct private ("alice" ∷ []) []
      "@alice:example.org" named refl refl refl not_its_room sends a_member not_bot

delivered :
    inbound routing "@alice:example.org" "!room" members direct ≡ some (deliver "private" alice dm)
unfolding inbound people_in collect_people is_bot person_for lookup put contains is_group
delivered = refl

inbound-deliver_example :
    (is_bot routing "@alice:example.org" ≡ false)
    × (person_for routing "@alice:example.org" ≡ some alice)
    × (dm ≡ (if is_group (length (people_in routing members).0) direct then group else dm))
inbound-deliver_example =
    inbound-deliver routing "@alice:example.org" "!room" members direct "private" alice dm delivered

valid : validate config ≡ ok tt
unfolding validate check_people check_sessions check_receive check_addresses claim_people
    claim_rooms is_user_id contains insert lookup
valid = refl

session-validated_example : session (new config) "private" ≡ some private
session-validated_example = session-validated config 1 private valid refl
