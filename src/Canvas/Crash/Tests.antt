-- ===== src/Canvas/Crash/Tests.antt =====
-- Instances of the theorems about FailureRecovery3D.tsx on a page just opened.
use cloud_weave.Prelude.{[], ◌≡◌, refl, All}
use cloud_weave.EventLoop.{World, fire}
use cloud_weave.Canvas.Crash.{Phase, Cluster, initial, Task, run, kill_node, handle}
use cloud_weave.Canvas.Crash.Heal.{IsHealed, crash_cycle, killed_target_announced}

abbrev opened : World Cluster Task
opened = record { state = initial; now = 0; queue = [] }

crash_cycle_example :
    let v = fire run (fire run (fire run (handle (kill_node 2) opened))) in
    (v.state.phase ≡ Phase.recovered)
    × (v.queue ≡ [])
    × (v.now ≡ 4500)
    × All (IsHealed 2) v.state.nodes
crash_cycle_example = crash_cycle opened 2 refl

killed_target_announced_example :
    let v = fire run (fire run (fire run (handle (kill_node 4) opened))) in
    All (λ n. n.id ≡ 4 → n.chunks ≡ []) v.state.nodes
    × (v.state.status_message
        ≡ "Cluster Self-Healed: Chunk C restored on Vault-04 · Replication back to N=3")
killed_target_announced_example = killed_target_announced opened refl
