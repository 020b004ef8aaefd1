-- ===== src/Config/Unique.antt =====
-- A configuration that passes validation names each session once.
use silta.Common.{
  ℕ, suc, zero, ◌+◌, ◌≡◌, refl, ap, ap₂, ◌∙◌, String, Bool, true, false, not, ◌&&◌, some, List, [],
  ◌∷◌, ◌⊎◌, inl, inr, arith, get_elem?, eq_iff,
}
use silta.Common.Assoc.{lookup, insert, lookup-insert}
use silta.Common.Names.{contains}
use silta.Config.Types.{Receive, SessionConfig, Config, Result, ok, err}
use silta.Config.Validate.{
  Seen, check_receive, check_sessions, check_people, validate, nothing_seen,
}
use silta.Config.Indices.{add_sessions-SameLists}
use silta.Config.Routing.{Routing, add_receive, add_sessions, people_only, new, session, at}

abbrev pub names_of : List SessionConfig → List String
names_of [] = []
names_of (s ∷ rest) = s.name ∷ names_of rest

abbrev pub distinct : List String → Bool
unfolding contains
distinct [] = true
distinct (x ∷ xs) = not (contains xs x) && distinct xs

abbrev is_err : {A : Type 0} → Result A → Bool
is_err (ok a) = false
is_err (err e) = true

Result-cases : {A : Type 0} (r : Result A) → ((a : A) × (r ≡ ok a)) ⊎ (is_err r ≡ true)
Result-cases (ok a) = inl (a, refl)
Result-cases (err e) = inr refl

receive-session_names :
    (names : List String) (s : String) (r : Receive) (seen seen' : Seen)
    → check_receive names s r seen ≡ ok seen'
    → seen'.session_names ≡ seen.session_names
unfolding check_receive
receive-session_names names s Receive.groups seen seen' h = ground arith
receive-session_names names s Receive.all seen seen' h = ground arith
receive-session_names names s (Receive.selective people rooms) seen seen' h = ground arith

abbrev with_name : Seen → String → Seen
with_name seen name = record seen { session_names = name ∷ seen.session_names }

check_sessions-cons :
    (names : List String) (s : SessionConfig) (rest : List SessionConfig) (seen : Seen)
    → check_sessions names (s ∷ rest) seen ≡ ok tt
    → (seen' : Seen) × (seen'.session_names ≡ s.name ∷ seen.session_names)
      × (contains seen.session_names s.name ≡ false)
      × (check_sessions names rest seen' ≡ ok tt)
unfolding check_sessions
check_sessions-cons names s rest seen h =
    elim (Result-cases (check_receive names s.name s.receive (with_name seen s.name))) [
      | inl (seen', e) ↦ (
        seen',
        receive-session_names names s.name s.receive (with_name seen s.name) seen' e,
        ground arith,
        ground arith,
      )
      | inr bad ↦ absurd (ground arith)
    ]

sessions-apart :
    (names : List String) (ss : List SessionConfig) (seen : Seen) (a : String)
    → check_sessions names ss seen ≡ ok tt
    → contains seen.session_names a ≡ true
    → contains (names_of ss) a ≡ false
unfolding contains
sessions-apart names [] seen a h c = refl
sessions-apart names (s ∷ rest) seen a h c =
    let (seen', e, new, later) = check_sessions-cons names s rest seen h in
    let shown : contains seen'.session_names a ≡ true = ap (λ l. contains l a) e ∙ (ground arith) in
    ground (arith, eq_iff s.name a, new, sessions-apart names rest seen' a later shown)

sessions-distinct :
    (names : List String) (ss : List SessionConfig) (seen : Seen)
    → check_sessions names ss seen ≡ ok tt
    → distinct (names_of ss) ≡ true
unfolding contains distinct
sessions-distinct names [] seen h = refl
sessions-distinct names (s ∷ rest) seen h =
    let (seen', e, new, later) = check_sessions-cons names s rest seen h in
    let shown : contains seen'.session_names s.name ≡ true =
      ap (λ l. contains l s.name) e ∙ ground (arith, eq_iff s.name s.name) in
    ground (
      arith,
      sessions-apart names rest seen' s.name later shown,
      sessions-distinct names rest seen' later,
    )

by_name-receive :
    (i : ℕ) (receive : Receive) (r : Routing) → (add_receive i receive r).by_name ≡ r.by_name
unfolding add_receive
by_name-receive i receive r = ground arith

abbrev with_session : ℕ → SessionConfig → Routing → Routing
with_session i s r = record r { by_name = insert s.name i r.by_name }

lookup-other :
    (i : ℕ) (ss : List SessionConfig) (r : Routing) (a : String)
    → contains (names_of ss) a ≡ false
    → lookup a (add_sessions i ss r).by_name ≡ lookup a r.by_name
unfolding add_sessions contains
lookup-other i [] r a h = refl
lookup-other i (s ∷ rest) r a h =
    lookup-other (i + 1) rest (add_receive i s.receive (with_session i s r)) a (ground arith)
    ∙ ap (λ m. lookup a m) (by_name-receive i s.receive (with_session i s r))
    ∙ ground (arith, lookup-insert s.name a i r.by_name)

lookup-head :
    (i : ℕ) (x : SessionConfig) (rest : List SessionConfig) (r : Routing)
    → contains (names_of rest) x.name ≡ false
    → lookup x.name (add_sessions i (x ∷ rest) r).by_name ≡ some i
unfolding add_sessions
lookup-head i x rest r h =
    lookup-other (i + 1) rest (add_receive i x.receive (with_session i x r)) x.name h
    ∙ ap (λ m. lookup x.name m) (by_name-receive i x.receive (with_session i x r))
    ∙ ground (arith, lookup-insert x.name x.name i r.by_name, eq_iff x.name x.name)

lookup-session :
    (i j : ℕ) (ss : List SessionConfig) (r : Routing) (s : SessionConfig)
    → distinct (names_of ss) ≡ true
    → get_elem? ss j ≡ some s
    → lookup s.name (add_sessions i ss r).by_name ≡ some (i + j)
unfolding add_sessions distinct
lookup-session i j [] r s d e = cc
lookup-session i zero (x ∷ rest) r s d e = ground (arith, lookup-head i x rest r (ground arith))
lookup-session i (suc j) (x ∷ rest) r s d e =
    lookup-session (i + 1) j rest (add_receive i x.receive (with_session i x r)) s (ground arith) e
    ∙ ap some (omega arith)

validate-sessions :
    (c : Config)
    → validate c ≡ ok tt
    → (names : List String) × (check_sessions names c.sessions nothing_seen ≡ ok tt)
unfolding validate
validate-sessions c h = elim (Result-cases (check_people c.matrix.user_id c.people [] [])) [
  | inl (names, e) ↦ (names, ground arith)
  | inr bad ↦ absurd (ground arith)
]

-- In a configuration that passes validation the routing finds each session under its name.
pub session-validated :
    (c : Config) (i : ℕ) (s : SessionConfig)
    → validate c ≡ ok tt
    → get_elem? c.sessions i ≡ some s
    → session (new c) s.name ≡ some s
unfolding session new
session-validated c i s h e =
    let (names, k) = validate-sessions c h in
    let d = sessions-distinct names c.sessions nothing_seen k in
    let same = add_sessions-SameLists 0 c.sessions (people_only c) in
    let there = lookup-session 0 i c.sessions (people_only c) s d e ∙ ap some (omega arith) in
    ap₂ (λ l o. at l o) same.0 there ∙ e
