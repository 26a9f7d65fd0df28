-- ===== src/Canvas/Failure/Tests.antt =====
-- Instances of the theorems about FailureCanvas.tsx on a page just opened.
use mathlib.Core.List.{Memᴰ}
use cloud_weave.Prelude.{◌≤◌, [], ◌≡◌, refl}
use cloud_weave.EventLoop.{World, fire}
use cloud_weave.Canvas.Failure.{Phase, Mesh, initial, Task, run, kill_node, handle}
use cloud_weave.Canvas.Failure.View.{view}
use cloud_weave.Canvas.Failure.Holdings.{copies}
use cloud_weave.Canvas.Failure.Copies.{
  Reachable, open_page, click, timer, no_chunk_lost, recovered_below_three,
}

abbrev opened : World Mesh Task
opened = record { state = initial; now = 0; queue = [] }

abbrev failing : World Mesh Task
failing = fire run (handle kill_node opened)

failing-Reachable : Reachable failing
unfolding view
failing-Reachable = timer (click {e = kill_node} (open_page 0) (Memᴰ.head refl))

no_chunk_lost_example :
    (copies "A" failing.state.nodes_state ≡ 3)
    × (copies "B" failing.state.nodes_state ≡ 3)
    × (1 ≤ copies "C" failing.state.nodes_state)
    × (copies "C" failing.state.nodes_state ≤ 2)
    × (2 ≤ copies "D" failing.state.nodes_state)
no_chunk_lost_example = no_chunk_lost failing-Reachable

recovered_below_three_example :
    let v = fire run (fire run (fire run (handle kill_node opened))) in
    (v.state.phase ≡ Phase.recovered)
    × (v.queue ≡ [])
    × (v.now ≡ 5400)
    × (v.state.status_message
        ≡ "Cluster Healthy: Chunk C restored on Node 4 - Replication back to N=3")
    × (copies "C" v.state.nodes_state ≡ 2)
    × (copies "D" v.state.nodes_state ≡ 2)
recovered_below_three_example = recovered_below_three (open_page 0) refl
