-- ===== src/Rotation/Protocol.antt =====
-- The rotation as a client of its actions sees it: an automaton that reads actions alone.
use silta.Common.{
  ℕ, Bool, true, false, ◌≡◌, refl, Option, none, some, List, [], ◌∷◌, ◌++◌, ◌==◌, inl, inr,
  Option-cases,
}
use silta.Rotation.Run.{Output, act, cancelled}
use silta.Rotation.Types.{Step, Action, Phase, Tracker, before_handoff, after_handoff}

pub data Stage : Type 0 where
  -- no handoff has been requested; whether the before-handoff snapshot is still due
  before : Bool → Stage
  -- the before-handoff snapshot is taken and the request follows
  copied : Stage
  requested : Stage
  -- the after-handoff snapshot is taken and `/compact` follows
  written : Stage
  summarising : Stage
  -- the run ends: no action follows
  stopped : Stage

unfoldable pub accept_one : Stage → Action → Option Stage
accept_one (before due) Action.mark_pending = some (before due)
accept_one (before true) (Action.snapshot before_handoff) = some copied
accept_one (before false) Action.request_handoff = some requested
accept_one (before _) (Action.retry Step.wait _ _) = some stopped
accept_one (before _) (Action.give_up Step.wait true _) = some stopped
accept_one copied Action.request_handoff = some requested
accept_one requested Action.await_handoff = some requested
accept_one requested (Action.snapshot after_handoff) = some written
accept_one requested (Action.retry Step.handoff _ _) = some stopped
accept_one requested (Action.postpone Step.handoff _ _) = some stopped
accept_one requested (Action.give_up Step.handoff _ _) = some stopped
accept_one written Action.compact = some summarising
accept_one summarising Action.await_compaction = some summarising
accept_one summarising Action.compacted = some (before true)
accept_one summarising (Action.retry Step.compaction _ _) = some stopped
accept_one summarising (Action.postpone Step.compaction _ _) = some stopped
accept_one summarising (Action.give_up Step.compaction _ _) = some stopped
accept_one _ _ = none

abbrev pub accept_then : Option Stage → (Stage → Option Stage) → Option Stage
accept_then none f = none
accept_then (some s) f = f s

-- a cancelled rotation starts over, with its snapshot due again
unfoldable pub accept_output : Stage → Output → Option Stage
unfolding accept_one
accept_output s (act a) = accept_one s a
accept_output (before _) cancelled = some (before true)
accept_output _ cancelled = none

unfoldable pub accept : Stage → List Output → Option Stage
unfolding accept_output
accept s [] = some s
accept s (o ∷ rest) = accept_then (accept_output s o) (λ s'. accept s' rest)

-- a phase at rest with the rotation pending is that of a run that ends
abbrev pub stage_of : Phase → Bool → ℕ → Stage
stage_of Phase.idle true attempts = stopped
stage_of Phase.idle false attempts = before (attempts == 0)
stage_of (Phase.waiting _) _ attempts = before (attempts == 0)
stage_of (Phase.handing_off _) _ _ = requested
stage_of (Phase.compacting _ _ _) _ _ = summarising

abbrev pub stage : Tracker → Stage
stage t = stage_of t.phase t.pending t.attempts

pub accept-append :
    (s : Stage) (xs ys : List Output)
    → accept s (xs ++ ys) ≡ accept_then (accept s xs) (λ s'. accept s' ys)
unfolding accept
accept-append s [] ys = refl
accept-append s (x ∷ xs) ys = elim (Option-cases (accept_output s x)) [
  | inl stuck ↦ rw stuck
  | inr (s', e) ↦ rw e (accept-append s' xs ys)
]
