-- ===== src/Watch/Alerts.antt =====
-- crates/silta/src/alert.rs: a session away for too long, silent after a delivery, or back.
-- Times are `u64` milliseconds; `saturating_sub` is the subtraction that stops at 0.
use silta.Common.{
  ℕ, ◌*◌, ◌-◌, Bool, false, Option, none, some, List, [], ◌∷◌, ◌++◌, map, String, ltb, min, u64_max,
  if◌then◌else◌, is_none,
}
use silta.Common.Assoc.{Assoc, lookup, insert}
use silta.Common.Ordered.{sort}
use silta.Watch.Types.{Alert, State, Watch}

abbrev pub repeat_ms : ℕ
repeat_ms = 24 * 60 * 60 * 1000

abbrev pub silent_repeat_ms : ℕ
silent_repeat_ms = 60 * 60 * 1000

-- `collect` into the map: a later entry under the same name replaces the earlier one
unfoldable pub started : ℕ → List String → Assoc State → Assoc State
started now [] m = m
started now (name ∷ names) m = started now names (
    insert name
      (record { disconnected_since = some now; alerted_at = none; silent_alerted_at = none }) m)

unfoldable pub new : List String → ℕ → ℕ → Watch
unfolding started
new names grace_secs now = record {
  grace_ms = min (grace_secs * 1000) u64_max;
  sessions = started now names [];
}

abbrev pub enabled : Watch → Bool
enabled w = ltb 0 w.grace_ms

-- the final `match` of `connected`
unfoldable pub welcome : String → ℕ → Option ℕ → Option ℕ → Option Alert
welcome session now (some _) (some since) = some (Alert.back session (now - since))
welcome session now (some _) none = none
welcome session now none since = none

abbrev pub connected_state : Watch → String → ℕ → Option State → Watch × Option Alert
unfolding welcome
connected_state w session now none = (w, none)
connected_state w session now (some st) = (
  record w {
    sessions =
        insert session (record st { disconnected_since = none; alerted_at = none }) w.sessions;
  },
  welcome session now st.alerted_at st.disconnected_since,
)

unfoldable pub connected : Watch → String → ℕ → Watch × Option Alert
connected w session now = connected_state w session now (lookup session w.sessions)

abbrev pub disconnected_state : Watch → String → ℕ → Option State → Watch
disconnected_state w session now none = w
disconnected_state w session now (some st) =
    if is_none st.disconnected_since
    then (record w {
      sessions = insert session (record st { disconnected_since = some now }) w.sessions;
    })
    else w

unfoldable pub disconnected : Watch → String → ℕ → Watch
disconnected w session now = disconnected_state w session now (lookup session w.sessions)

-- `at.is_some_and(|at| now_ms.saturating_sub(at) < limit)`
abbrev pub recent : ℕ → ℕ → Option ℕ → Bool
recent now limit none = false
recent now limit (some t) = ltb (now - t) limit

-- the body of the loop of `tick`, from its session's state
abbrev pub report_since : ℕ → ℕ → String → State → Option ℕ → State × List Alert
report_since grace now name st none = (st, [])
report_since grace now name st (some since) =
    if ltb (now - since) grace
    then (st, [])
    else if recent now repeat_ms st.alerted_at
    then (st, [])
    else (record st { alerted_at = some now }, Alert.away name since ∷ [])

abbrev pub report : ℕ → ℕ → String → State → State × List Alert
report grace now name st = report_since grace now name st st.disconnected_since

abbrev pub visit_state : Watch → String → ℕ → Option State → Watch × List Alert
-- never: the names are the map's own keys
visit_state w name now none = (w, [])
visit_state w name now (some st) =
    let (after, due) = report w.grace_ms now name st in
    (record w { sessions = insert name after w.sessions }, due)

unfoldable pub visit : Watch → String → ℕ → Watch × List Alert
visit w name now = visit_state w name now (lookup name w.sessions)

unfoldable pub visit_all : Watch → List String → ℕ → Watch × List Alert
visit_all w [] now = (w, [])
visit_all w (name ∷ names) now =
    let (w1, due) = visit w name now in let (w2, rest) = visit_all w1 names now in (w2, due ++ rest)

unfoldable pub tick : Watch → ℕ → Watch × List Alert
tick w now =
    let due = visit_all w (sort (map (λ e. e.0) w.sessions)) now in
    if enabled w then due else (w, [])

abbrev pub silent_state : Watch → String → String → ℕ → ℕ → Option State → Watch × Option Alert
silent_state w session room delivered now none = (w, none)
silent_state w session room delivered now (some st) =
    if recent now silent_repeat_ms st.silent_alerted_at then (w, none) else (
      record w {
        sessions = insert session (record st { silent_alerted_at = some now }) w.sessions;
      },
      some (Alert.silent session room delivered),
    )

unfoldable pub silent : Watch → String → String → ℕ → ℕ → Watch × Option Alert
silent w session room delivered now =
    if enabled w
    then silent_state w session room delivered now (lookup session w.sessions)
    else (w, none)
