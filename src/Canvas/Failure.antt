-- ===== src/Canvas/Failure.antt =====
-- documentation/components/canvas/FailureCanvas.tsx: its state, its two handlers and the three tasks
-- that the failure of Node 3 puts on timers. The tags of the phases and of the statuses overlap, so
-- they are named in full where they are used.
pub mod View
pub mod Holdings
pub mod Copies
mod Tests
use cloud_weave.Prelude.{ℕ, String, Bool, true, false, List, [], ◌∷◌, map, ◌==◌, if◌then◌else◌}
use cloud_weave.EventLoop.{World, change, set_timeout}

pub data Phase : Type 0 where
  idle lost failed repairing recovered : Phase

pub data Status : Type 0 where
  healthy timeout failed repairing : Status

pub record MeshNode : Type 0 where
  pub id : ℕ
  pub name : String
  pub x : ℕ
  pub y : ℕ
  pub status : Status
  pub chunks : List String

pub record Mesh : Type 0 where
  pub phase : Phase
  pub status_message : String
  pub nodes_state : List MeshNode

abbrev pub initial_nodes : List MeshNode
initial_nodes =
    record {
      id = 1;
      name = "Node 1";
      x = 250;
      y = 100;
      status = Status.healthy;
      chunks = "A" ∷ "B" ∷ "C" ∷ [];
    }
    ∷ record {
      id = 2;
      name = "Node 2";
      x = 100;
      y = 220;
      status = Status.healthy;
      chunks = "A" ∷ "B" ∷ [];
    }
    ∷ record {
      id = 3;
      name = "Node 3";
      x = 250;
      y = 340;
      status = Status.healthy;
      chunks = "C" ∷ "D" ∷ [];
    }
    ∷ record {
      id = 4;
      name = "Node 4";
      x = 500;
      y = 220;
      status = Status.healthy;
      chunks = "B" ∷ "D" ∷ [];
    }
    ∷ record {
      id = 5;
      name = "Node 5";
      x = 400;
      y = 340;
      status = Status.healthy;
      chunks = "A" ∷ "D" ∷ [];
    }
    ∷ []

abbrev pub initial : Mesh
initial = record {
  phase = Phase.idle;
  status_message = "All 5 cluster nodes reporting 500ms heartbeat OK";
  nodes_state = initial_nodes;
}

pub data Task : Type 0 where
  fail repair recover : Task

unfoldable pub lose_node : MeshNode → MeshNode
lose_node n = if n.id == 3 then record n { status = Status.timeout } else n

unfoldable pub fail_node : MeshNode → MeshNode
fail_node n = if n.id == 3 then record n { status = Status.failed; chunks = [] } else n

unfoldable pub repair_node : MeshNode → MeshNode
repair_node n = if n.id == 4 then record n { status = Status.repairing } else n

unfoldable pub recover_node : MeshNode → MeshNode
recover_node n =
    if n.id == 3
    then record n { status = Status.failed; chunks = [] }
    else if n.id == 4
    then record n { status = Status.healthy; chunks = "B" ∷ "D" ∷ "C (Repaired)" ∷ [] }
    else record n { status = Status.healthy }

-- The part of handleKillNode that runs at once.
unfoldable pub lose : Mesh → Mesh
unfolding lose_node
lose s = record s {
  phase = Phase.lost;
  status_message = "CRITICAL: Node 3 heartbeat lost · 3.0s failure detection timeout...";
  nodes_state = map lose_node s.nodes_state;
}

-- The callbacks of the three timers.
unfoldable pub run : Task → Mesh → Mesh
unfolding fail_node repair_node recover_node
run fail s = record s {
  phase = Phase.failed;
  status_message = "Node 3 marked OFFLINE · Under-replicated chunks detected (N=2 < 3)";
  nodes_state = map fail_node s.nodes_state;
}
run repair s = record s {
  phase = Phase.repairing;
  status_message = "Replica repair worker copying Chunk C from Node 1 → Node 4...";
  nodes_state = map repair_node s.nodes_state;
}
run recover s = record s {
  phase = Phase.recovered;
  status_message = "Cluster Healthy: Chunk C restored on Node 4 - Replication back to N=3";
  nodes_state = map recover_node s.nodes_state;
}

-- handleKillNode
unfoldable pub handle_kill_node : World Mesh Task → World Mesh Task
unfolding lose
handle_kill_node w =
    set_timeout recover 5400 (set_timeout repair 3200 (set_timeout fail 1500 (change lose w)))

-- handleReset, which leaves the timers alone.
unfoldable pub handle_reset : World Mesh Task → World Mesh Task
handle_reset w =
    change
      (λ s. record s {
        phase = Phase.idle;
        nodes_state = initial_nodes;
        status_message = "All 5 cluster nodes reporting 500ms heartbeat OK";
      })
      w

pub data Event : Type 0 where
  kill_node reset : Event

unfoldable pub handle : Event → World Mesh Task → World Mesh Task
unfolding handle_kill_node handle_reset
handle kill_node w = handle_kill_node w
handle reset w = handle_reset w
