-- ===== src/Playground/Recovery.antt =====
-- documentation/components/playground/FailureRecoverySimulator.tsx: its state, its two handlers and
-- the three tasks that a simulated failure puts on timers.
pub mod View
pub mod Cycle
pub mod Stale
pub mod Drain
mod Tests
use cloud_weave.Prelude.{
  ℕ, String, Bool, true, false, ◌||◌, List, [], ◌∷◌, map, if◌then◌else◌, same,
}
use cloud_weave.EventLoop.{World, change, set_timeout}

pub data Stage : Type 0 where
  idle failed detected repairing recovered : Stage

pub data Status : Type 0 where
  healthy warning failed repairing : Status

pub data EventKind : Type 0 where
  info fail warn success : EventKind

pub record ClusterNode : Type 0 where
  pub id : String
  pub name : String
  pub status : Status
  pub chunks : ℕ
  pub storage_used : String
  pub ip : String
  pub role : String

pub record TimelineEvent : Type 0 where
  pub time : String
  pub message : String
  pub kind : EventKind

-- The hooks of the component; `timer`, in tenths of a second, is never changed.
pub record Simulator : Type 0 where
  pub stage : Stage
  pub timer : ℕ
  pub events : List TimelineEvent
  pub nodes : List ClusterNode

abbrev pub initial_nodes : List ClusterNode
initial_nodes =
    record {
      id = "n1";
      name = "Node 1";
      status = Status.healthy;
      chunks = 18;
      storage_used = "2.4 GB";
      ip = "10.0.0.1:9000";
      role = "Primary";
    }
    ∷ record {
      id = "n2";
      name = "Node 2";
      status = Status.healthy;
      chunks = 15;
      storage_used = "2.1 GB";
      ip = "10.0.0.2:9001";
      role = "Replica";
    }
    ∷ record {
      id = "n3";
      name = "Node 3";
      status = Status.healthy;
      chunks = 16;
      storage_used = "2.2 GB";
      ip = "10.0.0.3:9002";
      role = "Target Victim";
    }
    ∷ record {
      id = "n4";
      name = "Node 4";
      status = Status.healthy;
      chunks = 14;
      storage_used = "1.9 GB";
      ip = "10.0.0.4:9003";
      role = "Standby";
    }
    ∷ record {
      id = "n5";
      name = "Node 5";
      status = Status.healthy;
      chunks = 17;
      storage_used = "2.3 GB";
      ip = "10.0.0.5:9004";
      role = "Replica";
    }
    ∷ []

abbrev pub initial_events : List TimelineEvent
initial_events =
    record {
      time = "12:01:20";
      message = "All 5 nodes reporting 500ms heartbeat OK";
      kind = EventKind.info;
    }
    ∷ []

abbrev pub initial : Simulator
initial = record { stage = Stage.idle; timer = 30; events = initial_events; nodes = initial_nodes }

pub data Task : Type 0 where
  detect repair recover : Task

-- The part of handleSimulateFailure that runs at once.
unfoldable pub begin_failure : Simulator → Simulator
begin_failure s = record s {
  stage = Stage.failed;
  events =
      record {
        time = "12:01:23";
        message = "CRITICAL: SIGKILL signal sent to Node 3 process";
        kind = EventKind.fail;
      }
      ∷ s.events;
}

unfoldable pub detect_node : ClusterNode → ClusterNode
detect_node n =
    if same n.id "n3"
    then record n { status = Status.failed; role = "DEAD / TIMEOUT" }
    else if same n.id "n1" || same n.id "n2"
    then record n { status = Status.warning }
    else n

unfoldable pub repair_node : ClusterNode → ClusterNode
repair_node n =
    if same n.id "n4"
    then record n {
      status = Status.repairing;
      chunks = 22;
      storage_used = "3.0 GB";
      role = "Repair Target";
    }
    else n

unfoldable pub recover_node : ClusterNode → ClusterNode
recover_node n =
    if same n.id "n3"
    then record n {
      status = Status.failed;
      chunks = 0;
      storage_used = "0 GB";
      role = "Offline Excluded";
    }
    else record n { status = Status.healthy; role = "Active Quorum" }

-- The callbacks of the three timers.
unfoldable pub run : Task → Simulator → Simulator
unfolding detect_node repair_node recover_node
run detect s = record s {
  stage = Stage.detected;
  nodes = map detect_node s.nodes;
  events =
      record {
        time = "12:01:24";
        message = "Heartbeat timeout: Node 3 failed 3 consecutive pings (3000ms)";
        kind = EventKind.fail;
      }
      ∷ record {
        time = "12:01:25";
        message = "Anti-Entropy detected 16 under-replicated chunks on hash ring";
        kind = EventKind.warn;
      }
      ∷ s.events;
}
run repair s = record s {
  stage = Stage.repairing;
  nodes = map repair_node s.nodes;
  events =
      record {
        time = "12:01:26";
        message = "Self-healing worker spawned: streaming 16 chunks from Node 1 -> Node 4";
        kind = EventKind.warn;
      }
      ∷ s.events;
}
run recover s = record s {
  stage = Stage.recovered;
  nodes = map recover_node s.nodes;
  events =
      record {
        time = "12:01:28";
        message = "Replicas restored: All object manifests at target N=3 quorum";
        kind = EventKind.success;
      }
      ∷ record {
        time = "12:01:29";
        message = "Cluster returned to 100% healthy state over 4 active nodes";
        kind = EventKind.success;
      }
      ∷ s.events;
}

-- handleSimulateFailure
unfoldable pub handle_simulate_failure : World Simulator Task → World Simulator Task
unfolding begin_failure
handle_simulate_failure w =
    set_timeout recover 5000
      (set_timeout repair 3200 (set_timeout detect 1500 (change begin_failure w)))

-- handleReset, which leaves the timers alone.
unfoldable pub handle_reset : World Simulator Task → World Simulator Task
handle_reset w =
    change (λ s. record s { stage = Stage.idle; nodes = initial_nodes; events = initial_events }) w

pub data Event : Type 0 where
  simulate_failure reset : Event

unfoldable pub handle : Event → World Simulator Task → World Simulator Task
unfolding handle_simulate_failure handle_reset
handle simulate_failure w = handle_simulate_failure w
handle reset w = handle_reset w
