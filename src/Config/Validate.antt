-- ===== src/Config/Validate.antt =====
-- crates/silta/src/config.rs: `Config::validate`, check by check in the source's order.
use Prim.Native.Char.{code}
use Prim.Native.String.{String}
use silta.Common.{
  ℕ, Bool, true, false, not, ◌&&◌, ◌||◌, Option, none, some, List, [], ◌∷◌, ◌==◌, str_eq,
}
use silta.Common.Assoc.{Assoc, lookup, insert}
use silta.Common.Names.{contains}
use silta.Config.Types.{PersonConfig, Receive, SessionConfig, Config, Invalid, Result, ok, err}

abbrev pub is_blank : String → Bool
is_blank s = str_eq s ""

starts_with_char : ℕ → String → Bool
starts_with_char c String.[] = false
starts_with_char c (String.◌∷◌ d s) = code d == c

contains_char : ℕ → String → Bool
contains_char c String.[] = false
contains_char c (String.◌∷◌ d s) = code d == c || contains_char c s

ends_with_char : ℕ → String → Bool
ends_with_char c String.[] = false
ends_with_char c (String.◌∷◌ d String.[]) = code d == c
ends_with_char c (String.◌∷◌ d (String.◌∷◌ e s)) = ends_with_char c (String.◌∷◌ e s)

-- `s[1..]`, read only where the first character is one byte
after_first : String → String
after_first String.[] = String.[]
after_first (String.◌∷◌ _ s) = s

unfoldable pub is_user_id : String → Bool
unfolding starts_with_char contains_char ends_with_char after_first
is_user_id s =
    starts_with_char b'@' s && contains_char b':' (after_first s) && not (ends_with_char b':' s)

unfoldable pub is_room_id : String → Bool
unfolding starts_with_char
is_room_id room = starts_with_char b'!' room

-- Rust's `?`
infixl 5 ◌>>=◌
abbrev pub ◌>>=◌ {ℓ κ} : {T : Type ℓ} {U : Type κ} → Result T → (T → Result U) → Result U
err invalid >>= next = err invalid
ok value >>= next = next value

infixl 5 ◌>>◌
abbrev pub ◌>>◌ {ℓ} : {U : Type ℓ} → Result (Unit {0}) → Result U → Result U
err invalid >> next = err invalid
ok done >> next = next

-- `if bad { return invalid(e) }`
abbrev pub refuse : Bool → Invalid → Result (Unit {0})
refuse true e = err e
refuse false e = ok tt

-- the addresses of one person; the set of addresses seen so far comes back
unfoldable pub check_addresses : String → String → List String → List String → Result (List String)
unfolding is_user_id contains
check_addresses bot person [] seen = ok seen
check_addresses bot person (address ∷ rest) seen = do
  refuse (not (is_user_id address)) (Invalid.bad_address address person)
  refuse (str_eq address bot) (Invalid.bot_address person)
  refuse (contains seen address) (Invalid.address_twice address)
  check_addresses bot person rest (address ∷ seen)

-- the people; the set of names comes back
unfoldable pub check_people :
    String → List PersonConfig → List String → List String → Result (List String)
unfolding check_addresses
check_people bot [] names addresses = ok names
check_people bot (person ∷ rest) names addresses = do
  refuse (is_blank person.name) Invalid.empty_person_name
  refuse (contains names person.name) (Invalid.person_twice person.name)
  addresses' ← check_addresses bot person.name person.addresses addresses
  check_people bot rest (person.name ∷ names) addresses'

-- what the loop over the sessions has seen
pub record Seen : Type 0 where
  pub session_names : List String
  pub all_session : Option String
  pub groups_session : Option String
  pub room_owner : Assoc String
  pub person_owner : Assoc String

-- `if let Some(other) = owners.insert(key, session) { return invalid(..) }`
abbrev pub own_once : Option String → (String → Invalid) → Result (Unit {0})
own_once none e = ok tt
own_once (some other) e = err (e other)

unfoldable pub claim_people :
    List String → String → List String → Assoc String → Result (Assoc String)
unfolding contains lookup insert
claim_people names session [] owners = ok owners
claim_people names session (person ∷ rest) owners = do
  refuse (not (contains names person)) (Invalid.unknown_person session person)
  own_once (lookup person owners) (λ other. Invalid.person_listed_twice person other session)
  claim_people names session rest (insert person session owners)

unfoldable pub claim_rooms : String → List String → Assoc String → Result (Assoc String)
unfolding is_room_id lookup insert
claim_rooms session [] owners = ok owners
claim_rooms session (room ∷ rest) owners = do
  refuse (not (is_room_id room)) (Invalid.bad_room session room)
  own_once (lookup room owners) (λ other. Invalid.room_listed_twice room other session)
  claim_rooms session rest (insert room session owners)

-- the `match &session.receive`
unfoldable pub check_receive : List String → String → Receive → Seen → Result Seen
unfolding claim_people claim_rooms
check_receive names session Receive.groups seen = do
  own_once seen.groups_session (λ first. Invalid.two_groups first session)
  ok (record seen { groups_session = some session })
check_receive names session Receive.all seen = do
  own_once seen.all_session (λ first. Invalid.two_all first session)
  ok (record seen { all_session = some session })
check_receive names session (Receive.selective people rooms) seen = do
  person_owner ← claim_people names session people seen.person_owner
  room_owner ← claim_rooms session rooms seen.room_owner
  ok (record seen { person_owner = person_owner; room_owner = room_owner })

unfoldable pub check_sessions : List String → List SessionConfig → Seen → Result (Unit {0})
unfolding check_receive
check_sessions names [] seen = ok tt
check_sessions names (session ∷ rest) seen = do
  refuse (is_blank session.name) Invalid.empty_session_name
  refuse (contains seen.session_names session.name) (Invalid.session_twice session.name)
  refuse (is_blank session.user) (Invalid.session_without_user session.name)
  seen' ←
      check_receive names session.name session.receive
        (record seen { session_names = session.name ∷ seen.session_names })
  check_sessions names rest seen'

abbrev pub nothing_seen : Seen
nothing_seen = record {
  session_names = [];
  all_session = none;
  groups_session = none;
  room_owner = [];
  person_owner = [];
}

unfoldable pub validate : Config → Result (Unit {0})
unfolding check_people check_sessions
validate c = do
  refuse (is_blank c.socket) Invalid.no_socket
  refuse (is_blank c.state_dir) Invalid.no_state_dir
  refuse (is_blank c.matrix.homeserver_url) Invalid.no_homeserver
  refuse (not (is_user_id c.matrix.user_id)) (Invalid.bad_bot_id c.matrix.user_id)
  refuse (is_blank c.matrix.password) Invalid.no_password
  refuse (is_blank c.matrix.device_id) Invalid.no_device_id
  refuse (c.inbox_max_age_days == 0) Invalid.no_inbox_age
  refuse (c.attachment_max_mb == 0) Invalid.no_attachment_cap
  names ← check_people c.matrix.user_id c.people [] []
  check_sessions names c.sessions nothing_seen
