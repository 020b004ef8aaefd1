-- ===== src/Config/Answers.antt =====
-- The routing's decisions read its tables of people and sessions in range.
use silta.Common.{ℕ, ◌≡◌, String, true, Option, none, some, List, arith, length, is_some}
use silta.Common.Assoc.{lookup}
use silta.Config.Types.{Config}
use silta.Config.Routing.{Routing, at}
use silta.Config.Indices.{InBounds, below, lookup-below, get_elem?-lt}

found :
    {A : Type 0} (xs : List A) (o : Option ℕ)
    → below (length xs) o ≡ true
    → is_some o ≡ true
    → is_some (at xs o) ≡ true
found xs none h e = cc
found xs (some i) h e = get_elem?-lt xs i (ground arith)

person_for-below :
    (n m : ℕ) (r : Routing) (sender : String)
    → InBounds n m r
    → below (length r.people) (lookup sender r.by_address) ≡ true
person_for-below n m r sender a = ground (arith, lookup-below m sender r.by_address a.1, a.3)
