-- ===== src/Supervisor/Plan.antt =====
-- `plan_start` of crates/silta-session/src/lib.rs: resume the saved session or start a new one.
-- `new_id` is what `state::new_id` draws, none where it fails; the result is none for an I/O
-- error.
use silta.Common.{ℕ, Bool, true, false, Option, none, some, String, if◌then◌else◌}
use silta.Supervisor.Types.{Next, Kind, Paths, Start}
use silta.Supervisor.State.{transcript, write_id, write_next, clear_rotation}

abbrev pub resumable_id : Paths → Option String → Option String
resumable_id p none = none
resumable_id p (some id) = if transcript p id then some id else none

abbrev pub resumable : Paths → Option String
resumable p = resumable_id p p.id

abbrev pub started : String → Kind → Paths × Bool → Paths × Option Start
started id kind (p, true) = (
  p,
  some (record {
    id = id;
    resume = false;
    kind = kind;
    attempts = 0;
    handoff = false;
    snapshot = false;
  }),
)
started id kind (p, false) = (p, none)

unfoldable pub fresh : Paths → Option String → Kind → Paths × Option Start
fresh p none kind = (p, none)
fresh p (some id) kind = started id kind (write_id p id)

abbrev pub cleared : Paths × Option Start → Paths × Option Start
cleared (p, none) = (p, none)
cleared (p, some start) = (clear_rotation p, some start)

unfoldable pub rotated : Paths → Option String → Bool → Paths × Option Start
unfolding fresh
rotated p new_id handoff = cleared (fresh p new_id (Kind.after_rotation handoff))

abbrev pub resumed : String → Kind → ℕ → Bool → Bool → Start
resumed id kind attempts handoff snapshot = record {
  id = id;
  resume = true;
  kind = kind;
  attempts = attempts;
  handoff = handoff;
  snapshot = snapshot;
}

-- a postponed rotation whose marker is gone was cancelled by hand
abbrev pub postponed : Paths → String → Next → Paths × Option Start
postponed p id (Next.postponed attempts handoff) =
    if p.marker
    then (p, some (resumed id Kind.resumed attempts handoff false))
    else (write_next p Next.normal, some (resumed id Kind.resumed 0 false false))
postponed p id _ = (write_next p Next.normal, some (resumed id Kind.resumed 0 false false))

unfoldable pub plan_next : Paths → Option String → Next → Option String → Paths × Option Start
unfolding rotated fresh
plan_next p new_id (Next.fresh handoff) saved = rotated p new_id handoff
plan_next p new_id (Next.retry snapshot attempts handoff) (some id) =
    (p, some (resumed id Kind.retry attempts handoff snapshot))
plan_next p new_id (Next.retry snapshot attempts handoff) none = rotated p new_id handoff
plan_next p new_id Next.normal (some id) = postponed p id Next.normal
plan_next p new_id (Next.postponed attempts handoff) (some id) =
    postponed p id (Next.postponed attempts handoff)
plan_next p new_id Next.normal none = fresh (clear_rotation p) new_id Kind.fresh
plan_next p new_id (Next.postponed attempts handoff) none =
    fresh (clear_rotation p) new_id Kind.fresh

unfoldable pub plan_start : Paths → Option String → Paths × Option Start
plan_start p new_id = plan_next p new_id p.rotation (resumable p)
