-- ===== src/Watch/Ledger.antt =====
-- The away and back alerts of a session, read as a ledger: what the owner was told and whether
-- it is still true, against what the state of the watch remembers.
use silta.Common.{
  ℕ, ◌≡◌, refl, sym, ap, ◌∙◌, Bool, true, false, Option, none, some, List, [], ◌∷◌, ◌++◌, String,
  map, inl, inr, Bool-cases, eq_iff, is_some, is_none, arith,
}
use silta.Common.Assoc.{Assoc, lookup, insert, lookup-insert}
use silta.Common.Ordered.{sort}
use silta.Watch.Types.{Alert, State, Watch}
use silta.Watch.Alerts.{
  connected, connected_state, disconnected, disconnected_state, report, visit, visit_state,
  visit_all, tick, silent, silent_state, welcome, new, started, enabled,
}
use silta.Watch.Life.{Op, option_list, apply, run, ledger, told_of, told, sound_state, sound}

ledger-append :
    (s : String) (b c : Bool) (xs ys : List Alert)
    → ledger s b xs ≡ some c
    → ledger s b (xs ++ ys) ≡ ledger s c ys
unfolding ledger
ledger-append s b c [] ys h = ground arith
ledger-append s b c (Alert.away session since ∷ xs) ys h =
    ground (arith, ledger-append s b c xs ys, ledger-append s true c xs ys)
ledger-append s b c (Alert.back session ms ∷ xs) ys h =
    ground (arith, ledger-append s b c xs ys, ledger-append s false c xs ys)
ledger-append s b c (Alert.silent session room ms ∷ xs) ys h = ledger-append s b c xs ys h

-- one operation keeps the ledger and the state together
Agrees : Watch → String → Watch → List Alert → Type 0
Agrees w s after out = (ledger s (told w s) out ≡ some (told after s)) × (sound after s ≡ true)

visit_state-Agrees :
    (w : Watch) (name : String) (now : ℕ) (s : String) (o : Option State)
    → lookup name w.sessions ≡ o
    → sound w s ≡ true
    → Agrees w s (visit_state w name now o).0 (visit_state w name now o).1
unfolding ledger Agrees
visit_state-Agrees w name now s none e h = ground arith
visit_state-Agrees w name now s (some st) e h =
    ground (arith, eq_iff name s, lookup-insert name s (report w.grace_ms now name st).0 w.sessions)

visit-Agrees :
    (w : Watch) (name : String) (now : ℕ) (s : String)
    → sound w s ≡ true
    → Agrees w s (visit w name now).0 (visit w name now).1
unfolding visit
visit-Agrees w name now s h = visit_state-Agrees w name now s (lookup name w.sessions) refl h

welcomed : State → State
welcomed st = record st { disconnected_since = none; alerted_at = none }

connected_state-Agrees :
    (w : Watch) (name : String) (now : ℕ) (s : String) (o : Option State)
    → lookup name w.sessions ≡ o
    → sound w s ≡ true
    → Agrees w s (connected_state w name now o).0 (option_list (connected_state w name now o).1)
unfolding ledger Agrees welcome welcomed
connected_state-Agrees w name now s none e h = ground arith
connected_state-Agrees w name now s (some st) e h =
    ground (arith, eq_iff name s, lookup-insert name s (welcomed st) w.sessions)

disconnected_state-Agrees :
    (w : Watch) (name : String) (now : ℕ) (s : String) (o : Option State)
    → lookup name w.sessions ≡ o
    → sound w s ≡ true
    → Agrees w s (disconnected_state w name now o) []
unfolding ledger Agrees
disconnected_state-Agrees w name now s none e h = ground arith
disconnected_state-Agrees w name now s (some st) e h = ground (
  arith,
  eq_iff name s,
  lookup-insert name s (record st { disconnected_since = some now }) w.sessions,
)

silent_state-Agrees :
    (w : Watch) (name room : String) (delivered now : ℕ) (s : String) (o : Option State)
    → lookup name w.sessions ≡ o
    → sound w s ≡ true
    → Agrees w s
        (silent_state w name room delivered now o).0
        (option_list (silent_state w name room delivered now o).1)
unfolding ledger Agrees
silent_state-Agrees w name room delivered now s none e h = ground arith
silent_state-Agrees w name room delivered now s (some st) e h = ground (
  arith,
  eq_iff name s,
  lookup-insert name s (record st { silent_alerted_at = some now }) w.sessions,
)

Agrees-trans :
    (u : Watch) (s : String) (v w : Watch) (xs ys : List Alert)
    → Agrees u s v xs
    → Agrees v s w ys
    → Agrees u s w (xs ++ ys)
unfolding Agrees
Agrees-trans u s v w xs ys h k = (ledger-append s (told u s) (told v s) xs ys h.0 ∙ k.0, k.1)

Agrees-refl : (w : Watch) (s : String) → sound w s ≡ true → Agrees w s w []
unfolding Agrees ledger
Agrees-refl w s h = (refl, h)

visit_all-Agrees :
    (w : Watch) (names : List String) (now : ℕ) (s : String)
    → sound w s ≡ true
    → Agrees w s (visit_all w names now).0 (visit_all w names now).1
unfolding visit_all
visit_all-Agrees w [] now s h = Agrees-refl w s h
visit_all-Agrees w (name ∷ names) now s h =
    let after = (visit w name now).0 in
    let a = visit-Agrees w name now s h in
    Agrees-trans w s after (visit_all after names now).0 (visit w name now).1
      (visit_all after names now).1 a (visit_all-Agrees after names now s (unfold Agrees in a.1))

apply-Agrees :
    (w : Watch) (o : Op) (s : String) → sound w s ≡ true → Agrees w s (apply w o).0 (apply w o).1
unfolding apply connected disconnected tick silent
apply-Agrees w (Op.connect session now) s h =
    connected_state-Agrees w session now s (lookup session w.sessions) refl h
apply-Agrees w (Op.disconnect session now) s h =
    disconnected_state-Agrees w session now s (lookup session w.sessions) refl h
apply-Agrees w (Op.check now) s h = elim (Bool-cases (enabled w)) [
  | inl e ↦ rw e (visit_all-Agrees w (sort (map (λ e. e.0) w.sessions)) now s h)
  | inr e ↦ rw e (Agrees-refl w s h)
]
apply-Agrees w (Op.silence session room delivered now) s h = elim (Bool-cases (enabled w)) [
  | inl e ↦
      rw e (silent_state-Agrees w session room delivered now s (lookup session w.sessions) refl h)
  | inr e ↦ rw e (Agrees-refl w s h)
]

run-Agrees :
    (w : Watch) (ops : List Op) (s : String)
    → sound w s ≡ true
    → Agrees w s (run w ops).0 (run w ops).1
unfolding run
run-Agrees w [] s h = Agrees-refl w s h
run-Agrees w (o ∷ ops) s h =
    let after = (apply w o).0 in
    let a = apply-Agrees w o s h in
    Agrees-trans w s after (run after ops).0 (apply w o).1 (run after ops).1 a
      (run-Agrees after ops s (unfold Agrees in a.1))

fresh : Option State → Bool
fresh none = true
fresh (some st) = is_none st.alerted_at

started-fresh :
    (now : ℕ) (names : List String) (m : Assoc State) (s : String)
    → fresh (lookup s m) ≡ true
    → fresh (lookup s (started now names m)) ≡ true
unfolding started
started-fresh now [] m s h = h
started-fresh now (name ∷ names) m s h =
    let st : State = record {
      disconnected_since = some now;
      alerted_at = none;
      silent_alerted_at = none;
    } in
    started-fresh now names (insert name st m) s
      (unfold fresh in ground (arith, lookup-insert name s st m))

fresh_lem : (o : Option State) → fresh o ≡ true → (told_of o ≡ false) × (sound_state o ≡ true)
unfolding fresh
fresh_lem none h = ground arith
fresh_lem (some st) h = ground arith

new_lem :
    (names : List String) (grace_secs now : ℕ) (s : String)
    → (told (new names grace_secs now) s ≡ false) × (sound (new names grace_secs now) s ≡ true)
unfolding new
new_lem names grace_secs now s =
    fresh_lem (lookup s (started now names []))
      (started-fresh now names [] s (unfold fresh lookup in refl))

-- From the start of the daemon, whatever the sessions do and however often the watch ticks: the
-- alerts the owner gets about a session are in order (a session is reported back only after it
-- was reported away, and once), and the last of them says what the watch remembers.
pub run-ledger :
    (names : List String) (grace_secs now : ℕ) (ops : List Op) (s : String)
    → ledger s false (run (new names grace_secs now) ops).1
      ≡ some (told (run (new names grace_secs now) ops).0 s)
run-ledger names grace_secs now ops s =
    let w = new names grace_secs now in
    let f = new_lem names grace_secs now s in
    let a = run-Agrees w ops s f.1 in
    let b : ledger s (told w s) (run w ops).1 ≡ some (told (run w ops).0 s) =
      unfold Agrees in a.0 in
    ap (λ t. ledger s t (run w ops).1) (sym f.0) ∙ b

back_state :
    (w : Watch) (s : String) (at : ℕ) (o : Option State)
    → sound_state o ≡ true
    → is_some (connected_state w s at o).1 ≡ told_of o
unfolding welcome
back_state w s at none h = ground arith
back_state w s at (some st) h = ground arith

-- From the start of the daemon, whatever happened before: a session that connects is reported
-- back exactly if the last alert about it that the owner was given, of those that say away or back,
-- says that it is away.
pub back_iff_told :
    (names : List String) (grace_secs now : ℕ) (ops : List Op) (s : String) (at : ℕ)
    → ledger s false (run (new names grace_secs now) ops).1
      ≡ some (is_some (connected (run (new names grace_secs now) ops).0 s at).1)
unfolding connected
back_iff_told names grace_secs now ops s at =
    let w = new names grace_secs now in
    let a = run-Agrees w ops s (new_lem names grace_secs now s).1 in
    let after = (run w ops).0 in
    run-ledger names grace_secs now ops s
    ∙ sym
        (ap (λ t. some t) (back_state after s at (lookup s after.sessions) (unfold Agrees in a.1)))
