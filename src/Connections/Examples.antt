-- ===== src/Connections/Examples.antt =====
-- A manager for two connections, and the theorems at concrete inputs.
use sssonector.Prelude.{List, [], delete, insert, lookup, nat_eq, refl, ◌∷◌, ◌≡◌}
use sssonector.Connections.{accept, new_manager, remove}
use sssonector.Connections.Counting.{Inv, Op, accepts, perform, removes, run}
use sssonector.Connections.Runs.{traffic-Inv}

abbrev traffic : List Op
traffic = accepts 7 "a" ∷ accepts 8 "b" ∷ accepts 9 "c" ∷ removes 7 ∷ []

traffic_left : (run traffic (new_manager 2)).conn_count ≡ 1
unfolding run perform accept remove new_manager lookup insert delete
traffic_left = refl

traffic-Inv_example : Inv (run traffic (new_manager 2))
unfolding run perform accept remove new_manager lookup insert delete
traffic-Inv_example = traffic-Inv 2 traffic (refl, (refl, (refl, tt)))
