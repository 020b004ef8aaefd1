-- ===== src/Examples/Alerts.antt =====
-- The watch's theorems: a session that stays away, comes back and goes away again.
use silta.Common.{◌≡◌, false, some, List, [], ◌∷◌, is_some}
use silta.Watch.Alerts.{new, connected}
use silta.Watch.Life.{Op, run, ledger, told}
use silta.Watch.Ledger.{run-ledger, back_iff_told}

abbrev ops : List Op
ops =
    Op.check 70000
    ∷ Op.connect "bot" 80000
    ∷ Op.disconnect "bot" 90000
    ∷ Op.check 200000
    ∷ Op.silence "bot" "!room" 10 20
    ∷ []

run-ledger_example :
    ledger "bot" false (run (new ("bot" ∷ []) 60 0) ops).1
    ≡ some (told (run (new ("bot" ∷ []) 60 0) ops).0 "bot")
run-ledger_example = run-ledger ("bot" ∷ []) 60 0 ops "bot"

back_iff_told_example :
    ledger "bot" false (run (new ("bot" ∷ []) 60 0) ops).1
    ≡ some (is_some (connected (run (new ("bot" ∷ []) 60 0) ops).0 "bot" 300000).1)
back_iff_told_example = back_iff_told ("bot" ∷ []) 60 0 ops "bot" 300000
