-- ===== src/Replay/Forward.antt =====
-- The watermarks move forward only, so that what one run delivered no later run delivers again.
use silta.Common.{
  ℕ, ◌+◌, ◌-◌, ◌^◌, ◌<◌, ◌≡◌, Bool, true, false, Option, none, some, List, [], ◌∷◌, String, leb,
  str_eq, eq_iff, if◌then◌else◌, arith,
}
use text.Mathlib.TextPositions.{eq_refl}
use silta.Common.Assoc.{lookup-insert}
use silta.Replay.Marks.{Watermark, Verdict, covered, verdict, Marks, get, newer, set}

-- the deliveries of a run, in the order in which their marks are set
unfoldable pub set_all : Marks → List (String × Watermark) → Marks
set_all m [] = m
set_all m ((room, mark) ∷ rest) = set_all (set m room mark) rest

-- a room's mark is at least as new as a time
abbrev pub reaches : ℕ → Option Watermark → Bool
reaches ts none = false
reaches ts (some mark) = leb ts mark.ts_ms

set-reaches :
    (m : Marks) (room r : String) (mark : Watermark) (ts : ℕ)
    → reaches ts (get m r) ≡ true
    → reaches ts (get (set m room mark) r) ≡ true
unfolding set get
set-reaches m room r mark ts h = ground (arith, eq_iff room r, lookup-insert room r mark m.map)

set_all-reaches :
    (m : Marks) (marks : List (String × Watermark)) (r : String) (ts : ℕ)
    → reaches ts (get m r) ≡ true
    → reaches ts (get (set_all m marks) r) ≡ true
unfolding set_all
set_all-reaches m [] r ts h = h
set_all-reaches m ((room, mark) ∷ rest) r ts h =
    set_all-reaches (set m room mark) rest r ts (set-reaches m room r mark ts h)

set-own :
    (m : Marks) (room : String) (mark : Watermark)
    → reaches mark.ts_ms (get (set m room mark) room) ≡ true
unfolding set get
set-own m room mark = ground (arith, eq_refl room, lookup-insert room room mark m.map)

verdict-reached :
    (mark : Option Watermark) (newest ts : ℕ) (event_id : String) (started_at window : ℕ)
    → reaches newest mark ≡ true
    → ts < newest
    → verdict ts event_id mark started_at window ≡ Verdict.already_delivered
unfolding verdict covered
verdict-reached none newest ts event_id started_at window h lt = ground arith
verdict-reached (some mark) newest ts event_id started_at window h lt = ground arith

-- Once a room's mark is set at a message, then after any later marks of any rooms, a message of
-- that room sent before it counts as delivered in every later run, whatever that run's start and
-- window are.
pub set_all-already_delivered :
    (m : Marks) (room : String) (mark : Watermark) (later : List (String × Watermark)) (ts : ℕ)
    (event_id : String) (started_at window : ℕ)
    → ts < mark.ts_ms
    → verdict ts event_id (get (set_all (set m room mark) later) room) started_at window
      ≡ Verdict.already_delivered
set_all-already_delivered m room mark later ts event_id started_at window lt =
    verdict-reached (get (set_all (set m room mark) later) room) mark.ts_ms ts event_id started_at
      window (set_all-reaches (set m room mark) later room mark.ts_ms (set-own m room mark)) lt

-- does the verdict deliver?
abbrev pub delivers : Verdict → Bool
delivers (Verdict.deliver behind) = true
delivers Verdict.already_delivered = false
delivers Verdict.too_old = false

-- As long as the sum of a message's time and the window is a `u64`: it is delivered exactly if
-- the room's mark does not cover it and it was sent at most the window before the start; and it
-- is then said to be behind the start by as long as it was.
pub verdict-delivers :
    (ts : ℕ) (event_id : String) (mark : Option Watermark) (started_at window : ℕ)
    → ts + window < 2 ^ 64
    → delivers (verdict ts event_id mark started_at window)
      ≡ (if covered ts event_id mark then false else leb (started_at - ts) window)
unfolding verdict
verdict-delivers ts event_id mark started_at window h = ground arith

-- A message sent before the newest mark of the room it is set after leaves the marks alone; any
-- other becomes its room's mark; no other room's mark changes.
pub get-set :
    (m : Marks) (room r : String) (mark : Watermark)
    → get (set m room mark) r
      ≡ (if str_eq room r then (if newer (get m r) mark then get m r else some mark) else get m r)
unfolding get set
get-set m room r mark = ground (arith, eq_iff room r, lookup-insert room r mark m.map)
