-- ===== src/Registry/Delivery.antt =====
-- crates/siltad/src/daemon.rs: one owner for a session, and what an acknowledgement removes.
use text.Mathlib.TextPositions.{eq_refl}
use silta.Common.{
  ℕ, String, ◌≡◌, ◌≢◌, refl, sym, ap, ◌∙◌, true, false, Option, none, some, List, [], ◌∷◌, ◌++◌,
  arith, Bool-cases, inl, inr, eq_iff, str_eq, All,
}
use silta.Common.Assoc.{lookup, insert, lookup-insert, lookup-remove}
use silta.Registry.Table.{
  Registry, claim, ack, release, flying, take_event, keep_first, removed, is_connected, Stamped,
}

-- how a list of events stands to what taking out the event with an id gives
abbrev pub TakenOut : String → List Stamped → Option (Stamped × List Stamped) → Type 0
TakenOut id xs none = All (λ (x : Stamped). x.1.event_id ≢ id) xs
TakenOut id xs (some (found, others)) =
    (before : List Stamped) × (after : List Stamped) × (before ++ found ∷ after ≡ xs)
    × (before ++ after ≡ others)
    × (found.1.event_id ≡ id)
    × All (λ (x : Stamped). x.1.event_id ≢ id) before

TakenOut-keep_first :
    (id : String) (x : Stamped) (xs : List Stamped) (o : Option (Stamped × List Stamped))
    → x.1.event_id ≢ id
    → TakenOut id xs o
    → TakenOut id (x ∷ xs) (keep_first x o)
TakenOut-keep_first id x xs none ne h = (ne, h)
TakenOut-keep_first id x xs (some (found, others)) ne (before, after, e, f, same, all) = (
  x ∷ before,
  after,
  ap (λ (l : List Stamped). x ∷ l) e,
  ap (λ (l : List Stamped). x ∷ l) f,
  same,
  (ne, all),
)

take_event-TakenOut : (id : String) (xs : List Stamped) → TakenOut id xs (take_event id xs)
unfolding take_event
take_event-TakenOut id [] = tt
take_event-TakenOut id ((ts, e) ∷ rest) = elim (Bool-cases (str_eq e.event_id id)) [
  | inl same ↦ rw same ([], rest, refl, refl, (eq_iff e.event_id id).0 same, tt)
  | inr differ ↦ rw differ (
      TakenOut-keep_first id (ts, e) rest (take_event id rest)
        (λ p. ground (arith, eq_iff e.event_id id)) (take_event-TakenOut id rest))
]

claim_taken :
    {Channel : Type 0} (r : Registry Channel) (s : String) (tx : Channel)
    → is_connected r s ≡ true
    → claim r s tx ≡ none
unfolding claim
claim_taken r s tx c = ground arith

-- A session that is away can be claimed; from then on it is connected and every other claim of
-- it is refused, until its connection is released, which leaves it away and free again.
pub claim_exclusive :
    {Channel : Type 0} (r : Registry Channel) (s : String) (tx tx' : Channel) (now : ℕ)
    → is_connected r s ≡ false
    → (r' : Registry Channel) × (claim r s tx ≡ some r')
      × (is_connected r' s ≡ true)
      × (claim r' s tx' ≡ none)
      × (is_connected (release r' s now).0 s ≡ false)
unfolding claim release
claim_exclusive r s tx tx' now free =
    let r' = record r { inner = insert s tx r.inner } in
    let c : is_connected r' s ≡ true =
      unfold is_connected in ground (arith, eq_refl s, lookup-insert s s tx r.inner) in
    (
      r',
      ground arith,
      c,
      claim_taken r' s tx' c,
      ground (arith, eq_refl s, lookup-remove s s (insert s tx r.inner)),
    )

-- what an acknowledgement did
abbrev pub Acked :
    {Channel : Type 0}
    → String
    → String
    → Registry Channel
    → Registry Channel × Option Stamped
    → Type 0
Acked s id r (r', none) = (r' ≡ r) × All (λ (x : Stamped). x.1.event_id ≢ id) (flying r s)
Acked s id r (r', some found) =
    TakenOut id (flying r s) (some (found, flying r' s))
    × (lookup s r'.backlogs ≡ lookup s r.backlogs)
    × (lookup s r'.inner ≡ lookup s r.inner)

-- An acknowledgement takes out of flight the first event with its id and nothing else, and
-- returns it; with no such event in flight it changes nothing.
pub ack-Acked :
    {Channel : Type 0} (r : Registry Channel) (s id : String) → Acked s id r (ack r s id)
unfolding ack
ack-Acked r s id = go (take_event id (flying r s)) (take_event-TakenOut id (flying r s))
  where
    go :
        (o : Option (Stamped × List Stamped))
        → TakenOut id (flying r s) o
        → Acked s id r (removed r s o)
    go none h = (refl, h)
    go (some (found, others)) (before, after, e, f, same, all) = (
      (before, after, e, f ∙ sym (rw (lookup-insert s s others r.inflight, eq_refl s)), same, all),
      refl,
      refl,
    )
