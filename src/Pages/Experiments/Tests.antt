-- ===== src/Pages/Experiments/Tests.antt =====
-- Instances of the theorems about ExperimentsView.tsx with a failure simulated, left for the quorums and
-- mounted again while its timers are in the queue.
use mathlib.Core.List.{Memᴰ}
use cloud_weave.Prelude.{refl, ◌≡◌, []}
use cloud_weave.EventLoop.{World}
use cloud_weave.Playground.Recovery
use cloud_weave.Playground.Recovery.View as RecoveryView
use cloud_weave.Pages.Experiments.{
  failure, quorum, Page, Task, initial, mount, choose_exp, in_failure, handle,
}
use cloud_weave.Pages.Experiments.Runs.{
  failure_click, Reachable, open_page, event, RunsAlone, Reachable-RunsAlone,
}
use cloud_weave.Pages.Experiments.Left.{fires, left-lost}

-- Opened at time 7.
abbrev opened : World Page Task
opened = record { state = initial; now = 7; queue = [] }

abbrev failing : World Page Task
failing = handle (in_failure Recovery.simulate_failure) opened

failing-Reachable : Reachable failing
unfolding RecoveryView.view
failing-Reachable =
    event (open_page 7) (failure_click {e = Recovery.simulate_failure} (Memᴰ.head refl))

-- Two timers run while the quorums are shown.
abbrev again : World Page Task
again = handle (choose_exp failure) (fires 2 (handle (choose_exp quorum) failing))

Reachable-RunsAlone_example : RunsAlone failing
Reachable-RunsAlone_example = Reachable-RunsAlone failing-Reachable

left-lost_example :
    ((fires 1 again).state ≡ record { lab = mount failure; mounts = 2 })
    × (handle (choose_exp quorum) (handle (choose_exp quorum) failing)
        ≡ handle (choose_exp quorum) failing)
unfolding handle
left-lost_example = left-lost {w = failing} quorum 2 1 failing-Reachable refl
