-- ===== src/Config/Routing.antt =====
-- crates/silta/src/config.rs: the routing tables and the decisions made by them. A read of
-- `self.people[i]` or `self.sessions[i]` is an `Option` here, `none` for the panic of an index
-- out of range.
use silta.Common.{
  ℕ, ◌+◌, String, Bool, true, false, not, ◌&&◌, ◌||◌, Option, none, some, List, [], ◌∷◌, ◌==◌, leb,
  str_eq, if◌then◌else◌, length, get_elem?, is_empty,
}
use silta.Common.Assoc.{Assoc, lookup, insert}
use silta.Common.Names.{contains, put}
use silta.Protocol.{Person, RoomKind, dm, group}
use silta.Config.Types.{PersonConfig, Receive, SendPolicy, SessionConfig, Config}

pub data DropReason : Type 0 where
  own_message unknown_sender no_session : DropReason

pub data Inbound : Type 0 where
  -- session, person, room
  deliver : String → PersonConfig → RoomKind → Inbound
  drop : DropReason → Inbound

pub data SendDenied : Type 0 where
  unknown_session not_allowed : SendDenied

pub record RoomShape : Type 0 where
  pub direct : Bool
  pub named : Bool

unfoldable pub is_group : ℕ → RoomShape → Bool
is_group people shape = leb 2 people || (not shape.direct && shape.named)

pub record Routing : Type 0 where
  pub bot : String
  pub people : List PersonConfig
  pub by_address : Assoc ℕ
  pub sessions : List SessionConfig
  pub by_name : Assoc ℕ
  pub by_room : Assoc ℕ
  pub by_person : Assoc ℕ
  pub all : Option ℕ
  pub groups : Option ℕ

unfoldable pub insert_all : List String → ℕ → Assoc ℕ → Assoc ℕ
unfolding insert
insert_all [] i m = m
insert_all (key ∷ rest) i m = insert_all rest i (insert key i m)

-- the loop over `config.people.iter().enumerate()`
unfoldable pub add_people : ℕ → List PersonConfig → Assoc ℕ → Assoc ℕ
unfolding insert_all
add_people i [] m = m
add_people i (person ∷ rest) m = add_people (i + 1) rest (insert_all person.addresses i m)

-- the `match &session.receive` of the loop over the sessions
unfoldable pub add_receive : ℕ → Receive → Routing → Routing
unfolding insert_all
add_receive i Receive.all r = record r { all = some i }
add_receive i Receive.groups r = record r { groups = some i }
add_receive i (Receive.selective people rooms) r = record r {
  by_person = insert_all people i r.by_person;
  by_room = insert_all rooms i r.by_room;
}

-- the loop over `config.sessions.iter().enumerate()`
unfoldable pub add_sessions : ℕ → List SessionConfig → Routing → Routing
unfolding add_receive insert
add_sessions i [] r = r
add_sessions i (session ∷ rest) r =
    add_sessions (i + 1) rest
      (add_receive i session.receive (record r { by_name = insert session.name i r.by_name }))

-- the tables before the loop over the sessions
abbrev pub people_only : Config → Routing
people_only c = record {
  bot = c.matrix.user_id;
  people = c.people;
  by_address = add_people 0 c.people [];
  sessions = c.sessions;
  by_name = [];
  by_room = [];
  by_person = [];
  all = none;
  groups = none;
}

unfoldable pub new : Config → Routing
unfolding add_sessions
new c = add_sessions 0 c.sessions (people_only c)

abbrev pub at {ℓ} : {A : Type ℓ} → List A → Option ℕ → Option A
at xs none = none
at xs (some i) = get_elem? xs i

unfoldable pub is_bot : Routing → String → Bool
is_bot r address = str_eq address r.bot

unfoldable pub person_for : Routing → String → Option PersonConfig
unfolding lookup
person_for r address = at r.people (lookup address r.by_address)

unfoldable pub session : Routing → String → Option SessionConfig
unfolding lookup
session r name = at r.sessions (lookup name r.by_name)

-- the people that `people_for` restricts to, if it does
abbrev pub listed_only : Option SessionConfig → Option (List String)
listed_only none = none
listed_only (some s) = elim s.receive [
  | Receive.selective people rooms ↦ if is_empty rooms then some people else none
  | _ ↦ none
]

abbrev pub in_list : Option (List String) → String → Bool
in_list none name = true
in_list (some l) name = contains l name

abbrev pub announced : Option (List String) → List PersonConfig → List Person
announced listed [] = []
announced listed (p ∷ rest) =
    let later = announced listed rest in
    if in_list listed p.name then record { name = p.name; role = p.role } ∷ later else later

unfoldable pub people_for : Routing → String → List Person
unfolding session contains
people_for r name = announced (listed_only (session r name)) r.people

-- the set of names so far and `all_registered`
abbrev pub add_member : Option PersonConfig → List String × Bool → List String × Bool
add_member (some person) (people, registered) = (put person.name people, registered)
add_member none (people, registered) = (people, false)

unfoldable pub collect_people : Routing → List String → List String × Bool → List String × Bool
unfolding is_bot person_for put
collect_people r [] found = found
collect_people r (member ∷ rest) found =
    collect_people r rest
      (if is_bot r member then found else add_member (person_for r member) found)

unfoldable pub people_in : Routing → List String → List String × Bool
unfolding collect_people
people_in r members = collect_people r members ([], true)

abbrev pub or_else {ℓ} : {A : Type ℓ} → Option A → Option A → Option A
or_else none o = o
or_else (some a) o = some a

-- the owner of a room for a person's message
abbrev pub owner : Routing → Option ℕ → Bool → String → Option ℕ
owner r (some i) is_group_room person = some i
owner r none is_group_room person =
    or_else (if is_group_room then r.groups else lookup person r.by_person) r.all

-- `&self.sessions[i].name`
abbrev pub delivery : Routing → Option ℕ → PersonConfig → RoomKind → Option Inbound
delivery r none person room = some (drop no_session)
delivery r (some i) person room = elim (get_elem? r.sessions i) [
  | none ↦ none
  | some s ↦ some (deliver s.name person room)
]

abbrev pub inbound_from :
    Routing → Option PersonConfig → String → List String → RoomShape → Option Inbound
inbound_from r none room_id members shape = some (drop unknown_sender)
inbound_from r (some person) room_id members shape =
    let is_group_room = is_group (length (people_in r members).0) shape in
    delivery r (owner r (lookup room_id r.by_room) is_group_room person.name) person
      (if is_group_room then group else dm)

unfoldable pub inbound : Routing → String → String → List String → RoomShape → Option Inbound
unfolding is_bot person_for people_in is_group lookup
inbound r sender room_id members shape =
    if is_bot r sender
    then some (drop own_message)
    else inbound_from r (person_for r sender) room_id members shape

-- `Ok(())` is `none`
abbrev pub permit : Bool → Option SendDenied
permit true = none
permit false = some not_allowed

abbrev pub same_index : Option ℕ → ℕ → Bool
same_index none i = false
same_index (some j) i = j == i

unfoldable pub all_listed : List String → List String → Bool
unfolding contains
all_listed [] listed = true
all_listed (p ∷ rest) listed = contains listed p && all_listed rest listed

abbrev pub receives : Receive → Bool → List String → Bool
receives Receive.all is_group_room people = true
receives Receive.groups is_group_room people = is_group_room
receives (Receive.selective listed _) is_group_room people =
    not is_group_room && all_listed people listed

-- on `Option`, `none` is the panic of an index out of range
unfoldable pub owns_room :
    Routing → ℕ → String → List String → RoomShape → Option (Option SendDenied)
unfolding people_in is_group all_listed lookup
owns_room r i room_id members shape =
    if same_index (lookup room_id r.by_room) i
    then some none
    else (let (people, registered) = people_in r members in
        if is_empty people || not registered
        then some (some not_allowed)
        else elim (get_elem? r.sessions i) [
          | none ↦ none
          | some s ↦ some (permit (receives s.receive (is_group (length people) shape) people))
        ])

abbrev pub may_send_at :
    Routing → Option ℕ → String → List String → RoomShape → Option (Option SendDenied)
may_send_at r none room_id members shape = some (some unknown_session)
may_send_at r (some i) room_id members shape = elim (get_elem? r.sessions i) [
  | none ↦ none
  | some s ↦ elim s.send [
    | SendPolicy.any ↦ some none
    | SendPolicy.own ↦ owns_room r i room_id members shape
  ]
]

unfoldable pub may_send :
    Routing → String → String → List String → RoomShape → Option (Option SendDenied)
unfolding owns_room lookup
may_send r name room_id members shape = may_send_at r (lookup name r.by_name) room_id members shape

abbrev pub may_read_at :
    Routing → Option ℕ → String → List String → RoomShape → Option (Option SendDenied)
may_read_at r none room_id members shape = some (some unknown_session)
may_read_at r (some i) room_id members shape =
    if same_index r.all i then some none else owns_room r i room_id members shape

unfoldable pub may_read :
    Routing → String → String → List String → RoomShape → Option (Option SendDenied)
unfolding owns_room lookup
may_read r name room_id members shape = may_read_at r (lookup name r.by_name) room_id members shape
