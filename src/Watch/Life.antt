-- ===== src/Watch/Life.antt =====
-- A life of the watch: the calls the daemon makes of it, in any order and at any times, and the
-- ledger an owner could keep of the away and back alerts of one session.
use silta.Common.{
  ℕ, Bool, true, false, Option, none, some, List, [], ◌∷◌, ◌++◌, String, str_eq, if◌then◌else◌,
  is_some,
}
use silta.Common.Assoc.{lookup}
use silta.Watch.Types.{Alert, State, Watch}
use silta.Watch.Alerts.{connected, disconnected, visit, visit_all, tick, silent, welcome}

pub data Op : Type 0 where
  connect : (session : String) (now : ℕ) → Op
  disconnect : (session : String) (now : ℕ) → Op
  check : (now : ℕ) → Op
  silence : (session room : String) (delivered now : ℕ) → Op

abbrev pub option_list : Option Alert → List Alert
option_list none = []
option_list (some a) = a ∷ []

unfoldable pub apply : Watch → Op → Watch × List Alert
unfolding connected disconnected tick silent visit_all visit welcome
apply w (Op.connect session now) =
    let (after, a) = connected w session now in (after, option_list a)
apply w (Op.disconnect session now) = (disconnected w session now, [])
apply w (Op.check now) = tick w now
apply w (Op.silence session room delivered now) =
    let (after, a) = silent w session room delivered now in (after, option_list a)

unfoldable pub run : Watch → List Op → Watch × List Alert
unfolding apply
run w [] = (w, [])
run w (o ∷ ops) = let (w1, out) = apply w o in let (w2, rest) = run w1 ops in (w2, out ++ rest)

-- one alert read by an owner who follows the session `s` and was told (or not) that it is away;
-- a back alert without an away alert before it is refused
abbrev pub read : String → Bool → Alert → Option Bool
read s told (Alert.away session since) = if str_eq session s then some true else some told
read s told (Alert.back session ms) =
    if str_eq session s then (if told then some false else none) else some told
read s told (Alert.silent session room ms) = some told

unfoldable pub ledger : String → Bool → List Alert → Option Bool
ledger s told [] = some told
ledger s told (a ∷ rest) = elim (read s told a) [ none ↦ none | some b ↦ ledger s b rest ]

-- what the watch remembers of it
abbrev pub told_of : Option State → Bool
told_of none = false
told_of (some st) = is_some st.alerted_at

abbrev pub told : Watch → String → Bool
told w s = told_of (lookup s w.sessions)

-- a session that was reported away is away
abbrev pub sound_state : Option State → Bool
sound_state none = true
sound_state (some st) = if is_some st.alerted_at then is_some st.disconnected_since else true

abbrev pub sound : Watch → String → Bool
sound w s = sound_state (lookup s w.sessions)
