-- ===== src/Playground/Recovery/Tests.antt =====
-- Instances of the theorems about FailureRecoverySimulator.tsx at concrete states.
use cloud_weave.Prelude.{take, drop, [], ◌∷◌, ◌≡◌, ◌≢◌, refl, All, length}
use cloud_weave.EventLoop.{World, fire}
use cloud_weave.Playground.Recovery.{
  Stage, Simulator, Task, detect, initial, run, simulate_failure, reset, handle,
}
use cloud_weave.Playground.Recovery.Cycle.{IsSettled, cycle, Reachable, open_page, click, timer}
use cloud_weave.Playground.Recovery.Drain.{fire_all, drained-Reachable}
use cloud_weave.Playground.Recovery.Stale.{reset_undone}
use cloud_weave.Playground.Recovery.View.{view}
use mathlib.Core.List.{Memᴰ}

abbrev opened : World Simulator Task
opened = record { state = initial; now = 100; queue = [] }

cycle_example :
    let v = fire run (fire run (fire run (handle simulate_failure opened))) in
    (v.state.stage ≡ Stage.recovered)
    × (v.queue ≡ [])
    × (v.now ≡ 5100)
    × All IsSettled v.state.nodes
    × (length (take 6 v.state.events) ≡ 6)
    × (drop 6 v.state.events ≡ opened.state.events)
cycle_example = cycle opened refl

failing : Reachable (fire run (handle simulate_failure opened))
unfolding view
failing = timer (click {e = simulate_failure} (open_page 100) (Memᴰ.head refl))

abbrev waiting : World Simulator Task
waiting = record { state = initial; now = 0; queue = (1500, detect) ∷ [] }

reset_undone_example :
    ((handle reset waiting).state.stage ≡ Stage.idle)
    × ((fire run (handle reset waiting)).state.stage ≢ Stage.idle)
reset_undone_example = reset_undone waiting 1500 detect [] refl

drained-Reachable_example :
    let w = fire run (handle simulate_failure opened) in
    ((fire_all (length w.queue) w).queue ≡ [])
    × (w.queue ≢ [] → (fire_all (length w.queue) w).state.stage ≡ Stage.recovered)
drained-Reachable_example = drained-Reachable failing
