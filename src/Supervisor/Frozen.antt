-- ===== src/Supervisor/Frozen.antt =====
-- A run that is ending: no line goes to claude any more, the rotation stands still, the channel
-- does not open, and the outcome stays.
use silta.Common.{
  ℕ, ◌≡◌, refl, sym, ap, ◌∙◌, true, false, Option, none, some, List, [], ◌∷◌, arith, ◌⊎◌, inl, inr,
  is_some,
}
use silta.Stream.{Event}
use silta.Supervisor.Types.{Config, Line, Outcome, Run}
use silta.Supervisor.Methods.{
  Clock, send, begin_stop, end, done, start, window, window_answer, fallback, open_channel,
}
use silta.Supervisor.Loop.{
  observe, watched, emergency_result, track, on_line, on_tick, on_shutdown, final,
}
use silta.Supervisor.Ending.{Input, step, steps, IsSound, step-IsSound}

-- an outcome stays, or the unit's stop makes the end of a restart of claude
abbrev pub Settles : Option Outcome → Option Outcome → Type 0
Settles a b = (b ≡ a) ⊎ ((final a ≡ false) × (b ≡ some (Outcome.exit 0)))

Settles-is_some : (a b : Option Outcome) → is_some a ≡ true → Settles a b → is_some b ≡ true
Settles-is_some a b h (inl e) = ap is_some e ∙ h
Settles-is_some a b h (inr e) = ap is_some e.1

Settles-trans : (a b c : Option Outcome) → Settles a b → Settles b c → Settles a c
Settles-trans a b c (inl e) (inl f) = inl (f ∙ e)
Settles-trans a b c (inl e) (inr f) = inr (sym (ap final e) ∙ f.0, f.1)
Settles-trans a b c (inr e) (inl f) = inr (e.0, f ∙ e.1)
Settles-trans a b c (inr e) (inr f) = inr (e.0, f.1)

abbrev pub Frozen : Run → Run → Type 0
Frozen r s =
    (s.sent ≡ r.sent) × (s.tracker ≡ r.tracker) × (s.ready ≡ r.ready) × Settles r.after s.after

window_answer-Frozen :
    (cfg : Config) (r : Run) (w : Option ℕ) (i : Option (Line × ℕ)) (m : Option ℕ) (now : ℕ)
    → IsSound r
    → is_some r.after ≡ true
    → Frozen r (window_answer cfg r w i m now)
      × (is_some (window_answer cfg r w i m now).stopping ≡ true)
unfolding window_answer end start send
window_answer-Frozen cfg r none i m now h e = ground arith
window_answer-Frozen cfg r (some want) none m now h e = ground arith
window_answer-Frozen cfg r (some want) (some (l, limit)) none now h e = ground arith
window_answer-Frozen cfg r (some want) (some (l, limit)) (some n) now h e = ground arith

window-Frozen :
    (cfg : Config) (r : Run) (m : Option ℕ) (now : ℕ)
    → IsSound r
    → is_some r.after ≡ true
    → Frozen r (window cfg r m now) × (is_some (window cfg r m now).stopping ≡ true)
unfolding window
window-Frozen cfg r m now h e =
    window_answer-Frozen cfg (record r { intro = none }) cfg.window r.intro m now h e

observe-Frozen :
    (cfg : Config) (r : Run) (e : Event) (now : ℕ)
    → IsSound r
    → is_some r.after ≡ true
    → Frozen r (observe cfg r e now) × (is_some (observe cfg r e now).stopping ≡ true)
unfolding observe emergency_result fallback open_channel end done
observe-Frozen cfg r (Event.context_usage request_id max_tokens) now h a =
    ground (arith, window-Frozen cfg r max_tokens now h a)
observe-Frozen cfg r e now h a = ground arith

track-ending :
    (cfg : Config) (r : Run) (e : Event) (c : Clock)
    → is_some r.stopping ≡ true
    → track cfg r e c ≡ r
track-ending cfg r e c h = ground arith

on_line-Frozen :
    (cfg : Config) (r : Run) (e : Event) (c : Clock)
    → IsSound r
    → is_some r.after ≡ true
    → Frozen r (on_line cfg r e c)
unfolding on_line
on_line-Frozen cfg r e c h a =
    let w = watched cfg r e c in
    let o = observe-Frozen cfg w e c.now h a in
    let t = track-ending cfg (observe cfg w e c.now) e c o.1 in ground (arith, o, t)

step-Frozen :
    (cfg : Config) (r : Run) (c : Clock) (i : Input)
    → IsSound r
    → is_some r.after ≡ true
    → Frozen r (step cfg r c i)
unfolding step on_tick on_shutdown begin_stop
step-Frozen cfg r c (Input.line e) h a = on_line-Frozen cfg r e c h a
step-Frozen cfg r c Input.tick h a = ground arith
step-Frozen cfg r c Input.shutdown h a = ground arith

Frozen-trans : (r s t : Run) → Frozen r s → Frozen s t → Frozen r t
Frozen-trans r s t h k =
    (k.0 ∙ h.0, k.1 ∙ h.1, k.2 ∙ h.2, Settles-trans r.after s.after t.after h.3 k.3)

-- Once a run has an outcome, whatever lines, ticks and stops still come: nothing more is written
-- to claude, the tracker of the rotation does not move, the channel does not open, and the
-- outcome stays, except that the unit's stop turns a restart of claude into the supervisor's end.
pub steps-Frozen :
    (cfg : Config) (r : Run) (inputs : List (Clock × Input))
    → IsSound r
    → is_some r.after ≡ true
    → Frozen r (steps cfg r inputs)
unfolding steps
steps-Frozen cfg r [] h a = (refl, refl, refl, inl refl)
steps-Frozen cfg r ((c, i) ∷ inputs) h a =
    let next = step cfg r c i in
    let f = step-Frozen cfg r c i h a in
    Frozen-trans r next (steps cfg next inputs) f (
      steps-Frozen cfg next inputs (step-IsSound cfg r c i h)
        (Settles-is_some r.after next.after a f.3))
