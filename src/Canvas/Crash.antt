-- ===== src/Canvas/Crash.antt =====
-- documentation/components/canvas/FailureRecovery3D.tsx: the crash of any of five nodes, with the
-- three tasks that it puts on timers. A place is kept as the text of its numbers.
pub mod View
pub mod Heal
mod Tests
use cloud_weave.Prelude.{ℕ, String, Bool, true, false, List, [], ◌∷◌, map, ◌==◌, if◌then◌else◌}
use cloud_weave.EventLoop.{World, change, set_timeout}

pub data Phase : Type 0 where
  idle lost failed repairing recovered : Phase

pub data Status : Type 0 where
  healthy timeout failed repairing : Status

pub record ClusterNode3d : Type 0 where
  pub id : ℕ
  pub name : String
  pub pos : String
  pub status : Status
  pub chunks : List String

pub record Cluster : Type 0 where
  pub phase : Phase
  pub status_message : String
  pub nodes : List ClusterNode3d

abbrev pub initial_cluster_nodes : List ClusterNode3d
initial_cluster_nodes =
    record {
      id = 1;
      name = "Vault-01";
      pos = "[-2.2, 0.8, 0]";
      status = Status.healthy;
      chunks = "Chunk A" ∷ "Chunk B" ∷ "Chunk C" ∷ [];
    }
    ∷ record {
      id = 2;
      name = "Vault-02";
      pos = "[-1.2, -1.2, 0.8]";
      status = Status.healthy;
      chunks = "Chunk A" ∷ "Chunk B" ∷ [];
    }
    ∷ record {
      id = 3;
      name = "Vault-03";
      pos = "[0, 1.6, -0.6]";
      status = Status.healthy;
      chunks = "Chunk C" ∷ "Chunk D" ∷ [];
    }
    ∷ record {
      id = 4;
      name = "Vault-04";
      pos = "[2.2, 0.8, 0]";
      status = Status.healthy;
      chunks = "Chunk B" ∷ "Chunk D" ∷ [];
    }
    ∷ record {
      id = 5;
      name = "Vault-05";
      pos = "[1.2, -1.2, 0.8]";
      status = Status.healthy;
      chunks = "Chunk A" ∷ "Chunk D" ∷ [];
    }
    ∷ []

abbrev pub initial : Cluster
initial = record {
  phase = Phase.idle;
  status_message = "All 5 cluster nodes reporting 300ms heartbeat OK";
  nodes = initial_cluster_nodes;
}

-- The callbacks of the three timers, the first two of which know the node that was killed.
pub data Task : Type 0 where
  fail : ℕ → Task
  repair : Task
  recover : ℕ → Task

unfoldable pub lose_node : ℕ → ClusterNode3d → ClusterNode3d
lose_node target_id n = if n.id == target_id then record n { status = Status.timeout } else n

unfoldable pub fail_node : ℕ → ClusterNode3d → ClusterNode3d
fail_node target_id n =
    if n.id == target_id then record n { status = Status.failed; chunks = [] } else n

unfoldable pub repair_node : ClusterNode3d → ClusterNode3d
repair_node n = if n.id == 4 then record n { status = Status.repairing } else n

unfoldable pub recover_node : ℕ → ClusterNode3d → ClusterNode3d
recover_node target_id n =
    if n.id == target_id
    then record n { status = Status.failed; chunks = [] }
    else if n.id == 4
    then record n {
      status = Status.healthy;
      chunks = "Chunk B" ∷ "Chunk D" ∷ "Chunk C (Healed)" ∷ [];
    }
    else record n { status = Status.healthy }

-- The part of handleKillNode that runs at once.
unfoldable pub lose : ℕ → Cluster → Cluster
unfolding lose_node
lose target_id s = record s {
  phase = Phase.lost;
  status_message = "Node 3 heartbeat lost · 300ms gossip failure detector countdown...";
  nodes = map (lose_node target_id) s.nodes;
}

unfoldable pub run : Task → Cluster → Cluster
unfolding fail_node repair_node recover_node
run (fail target_id) s = record s {
  phase = Phase.failed;
  status_message = "Node 3 marked DEAD · Under-replicated chunks identified: [Chunk C (N=2 < 3)]";
  nodes = map (fail_node target_id) s.nodes;
}
run repair s = record s {
  phase = Phase.repairing;
  status_message = "Self-healing worker pool copying Chunk C from Vault-01 → Vault-04...";
  nodes = map repair_node s.nodes;
}
run (recover target_id) s = record s {
  phase = Phase.recovered;
  status_message = "Cluster Self-Healed: Chunk C restored on Vault-04 · Replication back to N=3";
  nodes = map (recover_node target_id) s.nodes;
}

unfoldable pub handle_kill_node : ℕ → World Cluster Task → World Cluster Task
unfolding lose
handle_kill_node target_id w =
    set_timeout (recover target_id) 4500
      (set_timeout repair 2600 (set_timeout (fail target_id) 1200 (change (lose target_id) w)))

-- handleReset, which leaves the timers alone.
unfoldable pub handle_reset : World Cluster Task → World Cluster Task
handle_reset w =
    change
      (λ s. record s {
        phase = Phase.idle;
        nodes = initial_cluster_nodes;
        status_message = "All 5 cluster nodes reporting 300ms heartbeat OK";
      })
      w

-- `phase === 'idle'`
abbrev pub is_idle : Phase → Bool
is_idle Phase.idle = true
is_idle Phase.lost = false
is_idle Phase.failed = false
is_idle Phase.repairing = false
is_idle Phase.recovered = false

-- A click on the button of the header, on a node of the scene, and on the reset.
pub data Event : Type 0 where
  kill_node pick : ℕ → Event
  reset : Event

unfoldable pub handle : Event → World Cluster Task → World Cluster Task
unfolding handle_kill_node handle_reset
handle (kill_node target_id) w = handle_kill_node target_id w
handle (pick id) w = if is_idle w.state.phase then handle_kill_node id w else w
handle reset w = handle_reset w
