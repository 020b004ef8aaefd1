-- ===== src/Examples/Queues.antt =====
-- The backlog's and the watermarks' theorems.
use silta.Common.{ℕ, ◌≡◌, false, some, [], ◌∷◌, String, arith}
use silta.Backlog.Queue.{Backlog, drain}
use silta.Backlog.Limits.{drain-eq-unexpired, Evicted, drain-Evicted}
use silta.Replay.Marks.{Watermark, Verdict, Marks, covered, verdict, get, set}
use silta.Replay.Forward.{set_all, delivers, set_all-already_delivered, verdict-delivers}

abbrev two : Backlog String
two = record { items = (10, "a") ∷ (20, "b") ∷ []; max_len = 2; max_age_ms = 100 }

drain-eq-unexpired_example : (drain two 115).1 ≡ (20, "b") ∷ []
drain-eq-unexpired_example = drain-eq-unexpired two 115 ((omega arith, tt), (tt, tt))

-- a message stamped in the future, in front of one long expired
abbrev shielded : Backlog String
shielded = record { items = (5000, "b") ∷ (10, "a") ∷ []; max_len = 2; max_age_ms = 100 }

drain-Evicted_example :
    Evicted 100 1000 shielded.items ((drain shielded 1000).1, (drain shielded 1000).2)
    × ((drain shielded 1000).0.items ≡ [])
drain-Evicted_example = drain-Evicted shielded 1000

abbrev mark : ℕ → String → Watermark
mark ts id = record { ts_ms = ts; event_id = id }

abbrev no_marks : Marks
no_marks = record { map = [] }

set_all-already_delivered_example :
    verdict 900 "$x"
      (get
        (set_all (set no_marks "!room" (mark 1000 "$y")) (("!room", mark 950 "$z") ∷ []))
        "!room")
      2000
      5000
    ≡ Verdict.already_delivered
set_all-already_delivered_example =
    set_all-already_delivered no_marks "!room" (mark 1000 "$y") (("!room", mark 950 "$z") ∷ []) 900
      "$x" 2000 5000 (omega arith)

verdict-delivers_example : delivers (verdict 1500 "$x" (some (mark 1000 "$y")) 2000 400) ≡ false
unfolding covered
verdict-delivers_example = verdict-delivers 1500 "$x" (some (mark 1000 "$y")) 2000 400 (omega arith)
