-- ===== src/Playground/Erasure/Tests.antt =====
-- Instances of the theorems about the six shards at concrete states.
use cloud_weave.Prelude.{◌≤◌, true, ◌≡◌, ◌↔◌}
use cloud_weave.Playground.Erasure.{Lab, initial, failed_count, can_reconstruct, toggle, update}
use cloud_weave.Playground.Erasure.Counts.{dead, Reachable, start, event, reconstructible_iff}

abbrev lost : Lab
lost = update (toggle "p1") (update (toggle "d2") initial)

reach_lost : Reachable lost
reach_lost = event (event start (toggle "d2")) (toggle "p1")

reconstructible_iff_example :
    (failed_count lost.shards ≡ dead lost.shards)
    × ((can_reconstruct lost.shards ≡ true) ↔ (dead lost.shards ≤ 2))
reconstructible_iff_example = reconstructible_iff reach_lost
