-- ===== src/Playground/Recovery/Stale.antt =====
-- FailureRecoverySimulator.tsx: handleReset does not clear the timers of the failure before it.
use cloud_weave.Prelude.{ℕ, List, ◌∷◌, ◌≡◌, ◌≢◌, refl}
use cloud_weave.EventLoop.{World, fire}
use cloud_weave.Playground.Recovery.{
  Stage, Simulator, Task, detect, repair, recover, run, reset, handle,
}

runs_away : (t : Task) (s : Simulator) → (run t s).stage ≢ Stage.idle
unfolding run
runs_away detect s = λ e. cc
runs_away repair s = λ e. cc
runs_away recover s = λ e. cc

-- Whenever a timer is left at a reset, the reset shows the idle stage and the next timer takes the
-- component out of it again, although no failure has been simulated since.
pub reset_undone :
    (w : World Simulator Task) (due : ℕ) (t : Task) (q : List (ℕ × Task))
    → w.queue ≡ (due, t) ∷ q
    → ((handle reset w).state.stage ≡ Stage.idle)
      × ((fire run (handle reset w)).state.stage ≢ Stage.idle)
unfolding handle
reset_undone w due t q e = (refl, rw e (runs_away t _))
