-- ===== src/Config/Privacy.antt =====
-- What a session that receives from some people and rooms only may read and write: rooms of its
-- own, and rooms whose members are all its own people.
use silta.Common.{
  ℕ, ◌≡◌, refl, ap, sym, ◌∙◌, String, Bool, true, false, Option, none, some, List, [], ◌∷◌, ◌⊎◌,
  inl, inr, arith, length, get_elem?, All, if◌then◌else◌, Bool-cases, eq_iff,
}
use silta.Common.Assoc.{lookup}
use silta.Common.Names.{contains, contains-put, All-contains}
use silta.Protocol.{RoomKind, dm, group}
use silta.Config.Types.{PersonConfig, Receive, SendPolicy, SessionConfig}
use silta.Config.Routing.{
  deliver, inbound, RoomShape, Routing, is_bot, person_for, add_member, collect_people, people_in,
  is_group, same_index, all_listed, owns_room, may_send, may_read,
}

-- a registered person whose name is among `names`
abbrev pub KnownAs : Routing → List String → String → Type 0
KnownAs r names m = (p : PersonConfig) × (person_for r m ≡ some p) × (contains names p.name ≡ true)

abbrev pub Admitted : Routing → List String → String → Type 0
Admitted r names m = (is_bot r m ≡ true) ⊎ KnownAs r names m

collected-contains :
    (r : Routing) (m : String) (found : List String × Bool) (o : Option PersonConfig) (a : String)
    → contains found.0 a ≡ true
    → contains (add_member o found).0 a ≡ true
collected-contains r m found none a h = h
collected-contains r m found (some p) a h = ground (arith, contains-put p.name a found.0)

collect-contains :
    (r : Routing) (members : List String) (found : List String × Bool) (a : String)
    → contains found.0 a ≡ true
    → contains (collect_people r members found).0 a ≡ true
unfolding collect_people
collect-contains r [] found a h = h
collect-contains r (m ∷ rest) found a h =
    collect-contains r rest (if is_bot r m then found else add_member (person_for r m) found) a
      (ground (arith, collected-contains r m found (person_for r m) a h))

collect-registered :
    (r : Routing) (members : List String) (found : List String × Bool)
    → (collect_people r members found).1 ≡ true
    → found.1 ≡ true
unfolding collect_people
collect-registered r [] found h = h
collect-registered r (m ∷ rest) found h =
    let next = if is_bot r m then found else add_member (person_for r m) found in
    let k = collect-registered r rest next h in ground (arith, k)

-- one member, with what was found before and what is found in the end
member-Admitted :
    (r : Routing) (m : String) (rest : List String) (found : List String × Bool)
    (o : Option PersonConfig)
    → person_for r m ≡ o
    → (collect_people r rest (add_member o found)).1 ≡ true
    → KnownAs r (collect_people r rest (add_member o found)).0 m
member-Admitted r m rest found none e h =
    absurd (ground (arith, collect-registered r rest (add_member none found) h))
member-Admitted r m rest found (some p) e h = (
  p,
  e,
  collect-contains r rest (add_member (some p) found) p.name
      (ground (arith, contains-put p.name p.name found.0, eq_iff p.name p.name)),
)

collect-Admitted :
    (r : Routing) (members : List String) (found : List String × Bool)
    → (collect_people r members found).1 ≡ true
    → All (Admitted r (collect_people r members found).0) members
unfolding collect_people
collect-Admitted r [] found h = tt
collect-Admitted r (m ∷ rest) found h = elim (Bool-cases (is_bot r m)) [
  | inl bot ↦ (
    inl bot,
    collect-Admitted r rest (if is_bot r m then found else add_member (person_for r m) found) h,
  )
  | inr other ↦ (
    inr (
        rw (other, collect_people)
          (member-Admitted r m rest found (person_for r m) refl (
            ap
              (λ b.
                (collect_people r rest (if b then found else add_member (person_for r m) found)).1)
              (sym other)
            ∙ h))),
    collect-Admitted r rest (if is_bot r m then found else add_member (person_for r m) found) h,
  )
]

listed-contains :
    (people listed : List String) (a : String)
    → all_listed people listed ≡ true
    → contains people a ≡ true
    → contains listed a ≡ true
unfolding all_listed contains
listed-contains [] listed a h c = cc
listed-contains (p ∷ rest) listed a h c = ground (arith, eq_iff p a, listed-contains rest listed a)

-- what a session that owns a room by its people knows of the room
owns_room-listed :
    (r : Routing) (i : ℕ) (room_id : String) (members : List String) (shape : RoomShape)
    (s : SessionConfig) (listed rooms : List String)
    → same_index (lookup room_id r.by_room) i ≡ false
    → get_elem? r.sessions i ≡ some s
    → s.receive ≡ Receive.selective listed rooms
    → owns_room r i room_id members shape ≡ some none
    → ((people_in r members).1 ≡ true) × (all_listed (people_in r members).0 listed ≡ true)
unfolding owns_room
owns_room-listed r i room_id members shape s listed rooms n e k o = ground arith

owns_room-KnownAs :
    (r : Routing) (i : ℕ) (room_id : String) (members : List String) (shape : RoomShape)
    (s : SessionConfig) (listed rooms : List String) (m : String)
    → same_index (lookup room_id r.by_room) i ≡ false
    → get_elem? r.sessions i ≡ some s
    → s.receive ≡ Receive.selective listed rooms
    → owns_room r i room_id members shape ≡ some none
    → contains members m ≡ true
    → is_bot r m ≡ false
    → KnownAs r listed m
unfolding people_in
owns_room-KnownAs r i room_id members shape s listed rooms m n e k o c b =
    let f = owns_room-listed r i room_id members shape s listed rooms n e k o in
    let all = collect-Admitted r members ([], true) (unfold people_in in f.0) in
    let names = (collect_people r members ([], true)).0 in
    go names f.1 (All-contains (Admitted r names) members m all c)
  where
    go :
        (names : List String)
        → all_listed names listed ≡ true
        → Admitted r names m
        → KnownAs r listed m
    go names l (inl bot) = absurd (ground arith)
    go names l (inr (p, found, there)) = (p, found, listed-contains names listed p.name l there)

-- A session that receives selectively may read a room that is not listed as its own only if
-- every member but the bot is a registered person listed for it. (A session that receives
-- everything reads every room.)
pub may_read-KnownAs :
    (r : Routing) (name : String) (i : ℕ) (room_id : String) (members : List String)
    (shape : RoomShape) (s : SessionConfig) (listed rooms : List String) (m : String)
    → lookup name r.by_name ≡ some i
    → get_elem? r.sessions i ≡ some s
    → s.receive ≡ Receive.selective listed rooms
    → same_index r.all i ≡ false
    → same_index (lookup room_id r.by_room) i ≡ false
    → may_read r name room_id members shape ≡ some none
    → contains members m ≡ true
    → is_bot r m ≡ false
    → KnownAs r listed m
unfolding may_read
may_read-KnownAs r name i room_id members shape s listed rooms m l e k a n o c b =
    owns_room-KnownAs r i room_id members shape s listed rooms m n e k (ground arith) c b

-- A session that receives selectively and may send to its own rooms only may send to a room that
-- is not listed as its own only if every member but the bot is a registered person listed for it.
pub may_send-KnownAs :
    (r : Routing) (name : String) (i : ℕ) (room_id : String) (members : List String)
    (shape : RoomShape) (s : SessionConfig) (listed rooms : List String) (m : String)
    → lookup name r.by_name ≡ some i
    → get_elem? r.sessions i ≡ some s
    → s.receive ≡ Receive.selective listed rooms
    → s.send ≡ SendPolicy.own
    → same_index (lookup room_id r.by_room) i ≡ false
    → may_send r name room_id members shape ≡ some none
    → contains members m ≡ true
    → is_bot r m ≡ false
    → KnownAs r listed m
unfolding may_send
may_send-KnownAs r name i room_id members shape s listed rooms m l e k a n o c b =
    owns_room-KnownAs r i room_id members shape s listed rooms m n e k (ground arith) c b

-- A message is handed to a session only if it is not the bot's own and its sender is a
-- registered person, and the session is told of that very person.
pub inbound-deliver :
    (r : Routing) (sender room_id : String) (members : List String) (shape : RoomShape)
    (name : String) (person : PersonConfig) (kind : RoomKind)
    → inbound r sender room_id members shape ≡ some (deliver name person kind)
    → (is_bot r sender ≡ false)
      × (person_for r sender ≡ some person)
      × (kind ≡ (if is_group (length (people_in r members).0) shape then group else dm))
unfolding inbound
inbound-deliver r sender room_id members shape name person kind h = ground arith
