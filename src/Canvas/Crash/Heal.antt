-- ===== src/Canvas/Crash/Heal.antt =====
-- FailureRecovery3D.tsx: the crash of any node left to run, and what it announces.
use cloud_weave.Prelude.{
  ℕ, ◌+◌, List, [], ◌∷◌, map, ◌≡◌, refl, ap, sym, ◌∙◌, All, if◌then◌else◌, ◌==◌, arith, append-nil,
}
use cloud_weave.Html.{clicks, each}
use cloud_weave.EventLoop.{World, fire}
use cloud_weave.Canvas.Crash.{
  Phase, Status, ClusterNode3d, Cluster, initial, Task, fail, repair, recover, fail_node,
  repair_node, recover_node, lose, run, is_idle, Event, kill_node, pick, reset, handle,
}
use cloud_weave.Canvas.Crash.View.{view, cluster_node_mesh}

-- What a node has become when the crash of node `target` has run: that node is failed and empty,
-- node 4, if it is another one, holds a healed copy of chunk C, and all but `target` are healthy.
abbrev pub IsHealed : ℕ → ClusterNode3d → Type 0
IsHealed target n =
    if n.id == target
    then (n.status ≡ Status.failed) × (n.chunks ≡ [])
    else if n.id == 4
    then (n.status ≡ Status.healthy) × (n.chunks ≡ "Chunk B" ∷ "Chunk D" ∷ "Chunk C (Healed)" ∷ [])
    else (n.status ≡ Status.healthy) × Unit {0}

healed : (target : ℕ) (n : ClusterNode3d) → IsHealed target (recover_node target n)
unfolding recover_node
healed target n = ground arith

All-IsHealed :
    (target : ℕ) (ns : List ClusterNode3d) → All (IsHealed target) (map (recover_node target) ns)
All-IsHealed target [] = tt
All-IsHealed target (n ∷ ns) = (healed target n, All-IsHealed target ns)

-- The world right after a kill, if no timer was running.
crashed :
    (w : World Cluster Task) (target : ℕ)
    → w.queue ≡ []
    → handle (kill_node target) w ≡ record {
      state = lose target w.state;
      now = w.now;
      queue =
          (w.now + 1200, fail target)
          ∷ (w.now + 2600, repair)
          ∷ (w.now + 4500, recover target)
          ∷ [];
    }
unfolding handle
crashed w target quiet = rw quiet (ground arith)

-- From any world in which no timer runs, the kill of any node followed by its three timers takes
-- 4.5 seconds and ends in the recovered phase with no timer left; the killed node is then failed and
-- empty, node 4 holds a healed copy unless it is the killed one, and all other nodes are healthy.
pub crash_cycle :
    (w : World Cluster Task) (target : ℕ)
    → w.queue ≡ []
    → let v = fire run (fire run (fire run (handle (kill_node target) w))) in
      (v.state.phase ≡ Phase.recovered)
      × (v.queue ≡ [])
      × (v.now ≡ w.now + 4500)
      × All (IsHealed target) v.state.nodes
unfolding run lose
crash_cycle w target quiet = rw (crashed w target quiet) (refl, refl, refl, All-IsHealed target _)

empty_fourth : (n : ClusterNode3d) → n.id ≡ 4 → (recover_node 4 n).chunks ≡ []
unfolding recover_node
empty_fourth n e = ground arith

recover_node-id : (target : ℕ) (n : ClusterNode3d) → (recover_node target n).id ≡ n.id
unfolding recover_node
recover_node-id target n = ground arith

All-empty :
    (ns : List ClusterNode3d) → All (λ n. n.id ≡ 4 → n.chunks ≡ []) (map (recover_node 4) ns)
All-empty [] = tt
All-empty (n ∷ ns) = (λ e. empty_fourth n (sym (recover_node-id 4 n) ∙ e), All-empty ns)

-- When it is Vault-04 that was killed, a node of id 4 ends up empty, and yet the message announces
-- that chunk C has been restored on Vault-04.
pub killed_target_announced :
    (w : World Cluster Task)
    → w.queue ≡ []
    → let v = fire run (fire run (fire run (handle (kill_node 4) w))) in
      All (λ n. n.id ≡ 4 → n.chunks ≡ []) v.state.nodes
      × (v.state.status_message
          ≡ "Cluster Self-Healed: Chunk C restored on Vault-04 · Replication back to N=3")
unfolding run lose
killed_target_announced w quiet = rw (crashed w 4 quiet) (All-empty _, refl)

-- The events that a click on each of the drawn nodes raises, a node being a solid and a label.
abbrev pub picks : List ClusterNode3d → List Event
picks [] = []
picks (n ∷ ns) = pick n.id ∷ pick n.id ∷ picks ns

clicks-meshes : (ns : List ClusterNode3d) → clicks (each ns cluster_node_mesh) ≡ picks ns
unfolding cluster_node_mesh
clicks-meshes [] = refl
clicks-meshes (n ∷ ns) = ap (λ t. pick n.id ∷ pick n.id ∷ t) (clicks-meshes ns)

-- The header offers to kill Node 3 in the idle phase and to reset in every other, and each node of
-- the scene can be clicked on.
pub clicks-crash_view :
    (s : Cluster)
    → clicks (view s) ≡ (if is_idle s.phase then kill_node 3 else reset) ∷ picks s.nodes
unfolding view
clicks-crash_view s = ground (
  arith,
  clicks-meshes s.nodes,
  append-nil (clicks (each s.nodes cluster_node_mesh)),
  append-nil (picks s.nodes),
)

-- A reset right after a kill does not stop the crash: when the three timers have run, the killed
-- node is failed and empty and the phase is the recovered one.
pub reset_outlived :
    (w : World Cluster Task) (target : ℕ)
    → w.queue ≡ []
    → let v = fire run (fire run (fire run (handle reset (handle (kill_node target) w)))) in
      (v.state.phase ≡ Phase.recovered) × (v.queue ≡ []) × All (IsHealed target) v.state.nodes
reset_outlived w target quiet = rw (crashed w target quiet) (
    unfold handle run in
    (refl, refl, All-IsHealed target (map repair_node (map (fail_node target) initial.nodes))))
