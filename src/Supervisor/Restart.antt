-- ===== src/Supervisor/Restart.antt =====
-- A rotation in progress survives the end of its run: what `act` records is what the next
-- `plan_start` reads, and the tracker of the next run goes on from it.
use silta.Common.{
  ℕ, ◌≡◌, refl, sym, ap₂, ap, ◌∙◌, Bool, true, false, Option, none, some, String, arith,
}
use silta.Rotation.Types.{Action, Step}
use silta.Rotation.Tracker as Tracking
use silta.Supervisor.Types.{Config, Kind, Next, Paths, Run, Start}
use silta.Supervisor.State.{transcript, write_id, write_next, clear_rotation}
use silta.Supervisor.Plan.{plan_start, plan_next, resumable_id, resumed, rotated, fresh}
use silta.Supervisor.Methods.{Clock, act_one, stop_for, begin_stop, is_wait, finish}
use silta.Supervisor.Loop.{rotate, seeded}

-- what an action that ends the run carries over to the next: the attempts spent, and whether
-- one of them wrote the handoff note
abbrev pub carries : Action → Option (ℕ × Bool)
carries (Action.retry step attempts handoff) = some (attempts, handoff)
carries (Action.postpone step attempts handoff) = some (attempts, handoff)
carries _ = none

-- the state directory holds this run's conversation and takes writes
abbrev pub Resumes : Run → Type 0
Resumes r =
    (r.paths.writable ≡ true)
    × (r.paths.id ≡ some r.id)
    × (transcript r.paths r.id ≡ true)
    × (r.paths.marker ≡ true)

plan_start-saved :
    (p : Paths) (id : String) (new_id : Option String)
    → p.id ≡ some id
    → transcript p id ≡ true
    → plan_start p new_id ≡ plan_next p new_id p.rotation (some id)
unfolding plan_start
plan_start-saved p id new_id e t =
    let found : resumable_id p (some id) ≡ some id = rw t refl in
    ap (plan_next p new_id p.rotation) (ap (resumable_id p) e ∙ found)

write_next_lem :
    (p : Paths) (next : Next) → p.writable ≡ true → write_next p next ≡ record p { rotation = next }
unfolding write_next
write_next_lem p next w = rw w refl

-- what is written as the next step is what the next start is planned from
plan_start-write_next :
    (p : Paths) (next : Next) (id : String) (new_id : Option String)
    → p.writable ≡ true
    → p.id ≡ some id
    → transcript p id ≡ true
    → plan_start (write_next p next) new_id
      ≡ plan_next (record p { rotation = next }) new_id next (some id)
plan_start-write_next p next id new_id w e t =
    ap (λ q. plan_start q new_id) (write_next_lem p next w)
    ∙ plan_start-saved (record p { rotation = next }) id new_id e (unfold transcript in t)

-- the start that follows an action that ends the run
abbrev pub next_start : String → Action → Option Start
next_start id (Action.retry step attempts handoff) =
    some (resumed id Kind.retry attempts handoff (is_wait step))
next_start id (Action.postpone step attempts handoff) =
    some (resumed id Kind.resumed attempts handoff false)
next_start id _ = none

-- A run whose rotation is cut or postponed leaves a state directory that the next start resumes
-- the same conversation from: with the handoff request as its first line after a cut, with the
-- attempts and the note of the rotation so far, and with the before-handoff snapshot still to
-- take if the cut came before it. Planning a start changes nothing there, so any number of
-- starts that end before the rotation goes on find the same. The run's conversation is the saved
-- one, its transcript and the marker are there, and the directory takes writes.
pub act_one-plan_start :
    (cfg : Config) (r : Run) (a : Action) (c : Clock) (new_id : Option String) (s : Start)
    → next_start r.id a ≡ some s
    → Resumes r
    → plan_start (act_one cfg r a c).paths new_id ≡ ((act_one cfg r a c).paths, some s)
unfolding act_one stop_for begin_stop plan_next
act_one-plan_start cfg r (Action.retry step attempts handoff) c new_id s e k =
    let next = Next.retry (is_wait step) attempts handoff in
    let back = write_next_lem r.paths next k.0 in
    plan_start-write_next r.paths next r.id new_id k.0 k.1 k.2 ∙ ap₂ (λ q o. (q, o)) (sym back) e
act_one-plan_start cfg r (Action.postpone step attempts handoff) c new_id s e k =
    let next = Next.postponed attempts handoff in
    let back = write_next_lem r.paths next k.0 in
    let pends : plan_next (record r.paths { rotation = next }) new_id next (some r.id) ≡ (
      record r.paths { rotation = next },
      next_start r.id (Action.postpone step attempts handoff),
    ) =
      rw k.3 refl in
    plan_start-write_next r.paths next r.id new_id k.0 k.1 k.2
    ∙ (pends ∙ ap₂ (λ q o. (q, o)) (sym back) e)
act_one-plan_start cfg r _ c new_id s e k = cc

-- After a given-up handoff the next start is a new conversation, told whether the handoff note
-- is this rotation's, and nothing of the rotation is left; whether the old conversation is still
-- there does not matter. The directory takes writes and a new id can be drawn.
pub give_up-plan_start :
    (cfg : Config) (r : Run) (step : Step) (cut handoff : Bool) (c : Clock) (id : String)
    → r.paths.writable ≡ true
    → plan_start (act_one cfg r (Action.give_up step cut handoff) c).paths (some id) ≡ (
      record r.paths { id = some id; marker = false; rotation = Next.normal },
      some (record {
        id = id;
        resume = false;
        kind = Kind.after_rotation handoff;
        attempts = 0;
        handoff = false;
        snapshot = false;
      }),
    )
unfolding act_one finish stop_for begin_stop write_next plan_start plan_next rotated fresh write_id
    clear_rotation
give_up-plan_start cfg r step cut handoff c id w = rw w refl

-- The tracker that the next run starts with, after a start planned from a rotation cut or
-- postponed: the rotation is pending, with the attempts spent and the note of it. Rotation is on
-- and the marker is there.
pub seeded-next_start :
    (cfg : Config) (paths : Paths) (id : String) (a : Action) (s : Start) (n : ℕ) (h : Bool)
    (not_before : Option ℕ) (now : ℕ)
    → next_start id a ≡ some s
    → carries a ≡ some (n, h)
    → rotate cfg ≡ true
    → paths.marker ≡ true
    → (seeded cfg paths s not_before now).pending ≡ true
      × (seeded cfg paths s not_before now).attempts ≡ n
      × (seeded cfg paths s not_before now).handoff ≡ h
unfolding seeded Tracking.new Tracking.retrying Tracking.pending
seeded-next_start cfg paths id (Action.retry step attempts handoff) s n h not_before now e k ro m =
    ground arith
seeded-next_start cfg paths id (Action.postpone step attempts handoff) s n h not_before now e k ro
      m =
    ground arith
seeded-next_start cfg paths id _ s n h not_before now e k ro m = cc
