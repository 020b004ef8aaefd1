-- ===== src/Config/Indices.antt =====
-- The indices in the routing tables of a configuration are those of its people and sessions, so
-- that no decision reads out of range.
use silta.Common.{
  ltb, ℕ, suc, zero, ◌+◌, ◌≤◌, ◌<◌, ◌≡◌, refl, ap, ◌∙◌, String, Bool, true, Option, none, some,
  List, [], ◌∷◌, inl, inr, arith, length, get_elem?, is_some, All, str_eq, Bool-cases,
}
use silta.Common.Assoc.{Assoc, lookup, insert}
use silta.Config.Types.{PersonConfig, Receive, SessionConfig, Config}
use silta.Config.Routing.{
  Routing, insert_all, add_people, add_receive, add_sessions, people_only, new,
}

abbrev pub AllBelow : ℕ → Assoc ℕ → Type 0
AllBelow n m = All (λ (e : String × ℕ). e.1 < n) m

abbrev pub below : ℕ → Option ℕ → Bool
below n none = true
below n (some i) = ltb i n

insert-AllBelow :
    (n : ℕ) (k : String) (i : ℕ) (m : Assoc ℕ) → i < n → AllBelow n m → AllBelow n (insert k i m)
unfolding insert
insert-AllBelow n k i [] h a = (h, tt)
insert-AllBelow n k i ((j, v) ∷ m) h a = elim (Bool-cases (str_eq j k)) [
  | inl e ↦ rw e ((h, a.1))
  | inr e ↦ rw e ((a.0, insert-AllBelow n k i m h a.1))
]

insert_all-AllBelow :
    (n : ℕ) (ks : List String) (i : ℕ) (m : Assoc ℕ)
    → i < n
    → AllBelow n m
    → AllBelow n (insert_all ks i m)
unfolding insert_all
insert_all-AllBelow n [] i m h a = a
insert_all-AllBelow n (k ∷ ks) i m h a =
    insert_all-AllBelow n ks i (insert k i m) h (insert-AllBelow n k i m h a)

add_people-AllBelow :
    (n i : ℕ) (people : List PersonConfig) (m : Assoc ℕ)
    → i + length people ≤ n
    → AllBelow n m
    → AllBelow n (add_people i people m)
unfolding add_people
add_people-AllBelow n i [] m h a = a
add_people-AllBelow n i (person ∷ rest) m h a =
    add_people-AllBelow n (i + 1) rest (insert_all person.addresses i m) (omega arith)
      (insert_all-AllBelow n person.addresses i m (omega arith) a)

-- all tables of sessions hold indices below `n`
pub record InRange (n : ℕ) (r : Routing) : Type 0 where
  pub by_name : AllBelow n r.by_name
  pub by_room : AllBelow n r.by_room
  pub by_person : AllBelow n r.by_person
  pub all : below n r.all ≡ true
  pub groups : below n r.groups ≡ true

add_receive-InRange :
    (n i : ℕ) (receive : Receive) (r : Routing)
    → i < n
    → InRange n r
    → InRange n (add_receive i receive r)
unfolding add_receive
add_receive-InRange n i Receive.all r h a = record {
  by_name = a.by_name;
  by_room = a.by_room;
  by_person = a.by_person;
  all = ground arith;
  groups = a.groups;
}
add_receive-InRange n i Receive.groups r h a = record {
  by_name = a.by_name;
  by_room = a.by_room;
  by_person = a.by_person;
  all = a.all;
  groups = ground arith;
}
add_receive-InRange n i (Receive.selective people rooms) r h a = record {
  by_name = a.by_name;
  by_room = insert_all-AllBelow n rooms i r.by_room h a.by_room;
  by_person = insert_all-AllBelow n people i r.by_person h a.by_person;
  all = a.all;
  groups = a.groups;
}

add_sessions-InRange :
    (n i : ℕ) (sessions : List SessionConfig) (r : Routing)
    → i + length sessions ≤ n
    → InRange n r
    → InRange n (add_sessions i sessions r)
unfolding add_sessions
add_sessions-InRange n i [] r h a = a
add_sessions-InRange n i (s ∷ rest) r h a =
    let r' = record r { by_name = insert s.name i r.by_name } in
    let a' : InRange n r' = record {
      by_name = insert-AllBelow n s.name i r.by_name (omega arith) a.by_name;
      by_room = a.by_room;
      by_person = a.by_person;
      all = a.all;
      groups = a.groups;
    } in
    add_sessions-InRange n (i + 1) rest (add_receive i s.receive r') (omega arith)
      (add_receive-InRange n i s.receive r' (omega arith) a')

pub lookup-below : (n : ℕ) (k : String) (m : Assoc ℕ) → AllBelow n m → below n (lookup k m) ≡ true
unfolding lookup
lookup-below n k [] a = refl
lookup-below n k ((j, v) ∷ m) a = elim (Bool-cases (str_eq j k)) [
  | inl e ↦ rw e (ground (arith, a.0))
  | inr e ↦ rw e (lookup-below n k m a.1)
]

pub get_elem?-lt {ℓ} :
    {A : Type ℓ} (xs : List A) (i : ℕ) → i < length xs → is_some (get_elem? xs i) ≡ true
get_elem?-lt [] i h = absurd (omega arith)
get_elem?-lt (x ∷ xs) zero h = refl
get_elem?-lt (x ∷ xs) (suc i) h = get_elem?-lt xs i (omega arith)

-- what the loop over the sessions leaves alone
abbrev pub SameLists : Routing → Routing → Type 0
SameLists r r' =
    (r'.sessions ≡ r.sessions) × (r'.people ≡ r.people) × (r'.by_address ≡ r.by_address)

add_receive-SameLists :
    (i : ℕ) (receive : Receive) (r : Routing) → SameLists r (add_receive i receive r)
unfolding add_receive
add_receive-SameLists i receive r = ground arith

pub add_sessions-SameLists :
    (i : ℕ) (sessions : List SessionConfig) (r : Routing) → SameLists r (add_sessions i sessions r)
unfolding add_sessions
add_sessions-SameLists i [] r = (refl, refl, refl)
add_sessions-SameLists i (s ∷ rest) r =
    let r' = record r { by_name = insert s.name i r.by_name } in
    let a = add_receive-SameLists i s.receive r' in
    let b = add_sessions-SameLists (i + 1) rest (add_receive i s.receive r') in
    (b.0 ∙ a.0, b.1 ∙ a.1, b.2 ∙ a.2)

-- the tables index lists of `n` sessions and `m` people
abbrev pub InBounds : ℕ → ℕ → Routing → Type 0
InBounds n m r =
    InRange n r × AllBelow m r.by_address × (length r.sessions ≡ n) × (length r.people ≡ m)

pub new-InBounds : (c : Config) → InBounds (length c.sessions) (length c.people) (new c)
unfolding new
new-InBounds c =
    let r = people_only c in
    let same = add_sessions-SameLists 0 c.sessions r in
    let start : InRange (length c.sessions) r = record {
      by_name = tt;
      by_room = tt;
      by_person = tt;
      all = refl;
      groups = refl;
    } in
    let people : AllBelow (length c.people) r.by_address =
      add_people-AllBelow (length c.people) 0 c.people [] (omega arith) tt in
    (
      add_sessions-InRange (length c.sessions) 0 c.sessions r (omega arith) start,
      rw same.2 people,
      ap (λ (l : List SessionConfig). length l) same.0,
      ap (λ (l : List PersonConfig). length l) same.1,
    )
