-- ===== src/Supervisor/Contract.antt =====
-- crates/silta-session/src/contract.rs: output of Claude Code that no longer matches what the
-- supervisor assumes. The warnings are named by their kind; their wording is not modelled.
use silta.Common.{
  ℕ, ◌-◌, Bool, true, false, not, ◌&&◌, ◌||◌, Option, none, some, List, [], ◌∷◌, String, ltb,
  if◌then◌else◌, is_none,
}
use silta.Common.Names.{contains}
use silta.Stream
use silta.Stream.{Event}

abbrev pub tested_versions : List String
tested_versions = "2.1.281" ∷ "2.1.283" ∷ []

abbrev pub fallback_fatal : List String
fallback_fatal = "model_not_found" ∷ "permission_denied" ∷ "last_resort" ∷ "model_blocked" ∷ []

abbrev pub fallback_outage : List String
fallback_outage = "overloaded" ∷ "server_error" ∷ []

pub data Warning : Type 0 where
  untested_version : String → Warning
  blind : Warning
  unknown_trigger : String → Warning
  automatic_compaction : Warning
  long_turn : Warning

pub record Contract : Type 0 where
  pub spoke_at : Option ℕ
  pub warned_usage : Bool
  pub warned_turn : Bool

abbrev pub fresh : Contract
fresh = record { spoke_at = none; warned_usage = false; warned_turn = false }

-- `get_or_insert`
abbrev pub or_insert : Option ℕ → ℕ → Option ℕ
or_insert none now = some now
or_insert (some t) now = some t

unfoldable pub event : Contract → Event → Bool → ℕ → Contract × Option Warning
unfolding contains
event c (Stream.init session version) rotation now =
    (c, if contains tested_versions version then none else some (untested_version version))
event c (Stream.assistant true context_tokens synthetic) rotation now = (c, none)
event c (Stream.assistant false context_tokens synthetic) rotation now =
    let spoke = record c { spoke_at = or_insert c.spoke_at now } in
    if is_none context_tokens && not c.warned_usage
    then (record spoke { warned_usage = true }, some blind)
    else (spoke, none)
event c (Stream.result is_error person) rotation now =
    (record c { spoke_at = none; warned_turn = false }, none)
event c (Stream.model_fallback trigger) rotation now = (
  c,
  if contains fallback_fatal trigger || contains fallback_outage trigger
      then none
      else some (unknown_trigger trigger),
)
event c (Stream.compacted auto) rotation now =
    (c, if auto && rotation then some automatic_compaction else none)
event c _ rotation now = (c, none)

abbrev pub tick_since : Contract → Option ℕ → ℕ → ℕ → Contract × Option Warning
tick_since c none now cap = (c, none)
tick_since c (some spoke_at) now cap =
    if c.warned_turn || ltb (now - spoke_at) cap
    then (c, none)
    else (record c { warned_turn = true }, some long_turn)

unfoldable pub tick : Contract → ℕ → ℕ → Contract × Option Warning
tick c now cap = tick_since c c.spoke_at now cap
