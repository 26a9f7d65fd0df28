-- ===== src/Playground/Ring.antt =====
-- documentation/components/playground/ConsistentHashRing.tsx: the ring of five nodes on which the sample
-- chunks are placed.
pub mod View
pub mod Placement
mod Tests
use cloud_weave.Prelude.{
  ℕ, suc, ◌+◌, ◌%◌, String, Bool, true, false, not, any, Option, none, some, List, [], ◌∷◌, ◌++◌,
  map, range, find?, get_or, if◌then◌else◌, show, cat, same,
}
use cloud_weave.Playground.Chunks.{ChunkInfo, sample_chunks, first_chunk}

pub record NodePos : Type 0 where
  pub id : String
  pub name : String
  pub angle_deg : ℕ
  pub ip : String
  pub active : Bool

abbrev pub initial_nodes : List NodePos
initial_nodes =
    record { id = "node-1"; name = "Node 1"; angle_deg = 0; ip = "10.0.0.1:9000"; active = true }
    ∷ record { id = "node-2"; name = "Node 2"; angle_deg = 72; ip = "10.0.0.2:9001"; active = true }
    ∷ record {
      id = "node-3";
      name = "Node 3";
      angle_deg = 144;
      ip = "10.0.0.3:9002";
      active = true;
    }
    ∷ record {
      id = "node-4";
      name = "Node 4";
      angle_deg = 216;
      ip = "10.0.0.4:9003";
      active = true;
    }
    ∷ record {
      id = "node-5";
      name = "Node 5";
      angle_deg = 288;
      ip = "10.0.0.5:9004";
      active = true;
    }
    ∷ []

abbrev pub radius : ℕ
radius = 140

abbrev pub center_x : ℕ
center_x = 200

abbrev pub center_y : ℕ
center_y = 200

pub record VirtualNode : Type 0 where
  pub id : ℕ
  pub node_owner : String

-- virtualNodes, whose coordinates the view computes.
abbrev pub virtual_nodes : List VirtualNode
virtual_nodes =
    map (λ i. record { id = i; node_owner = cat "Node " (show (i % 5 + 1)) }) (range 150)

-- The state, with the ids that `onSelectChunk` was called with, the last one first.
pub record Ring : Type 0 where
  pub nodes : List NodePos
  pub current_chunk_id : String
  pub selected : List String

-- The component with the property `selectedChunkId`.
abbrev pub initial : String → Ring
initial selected_chunk_id = record {
  nodes = initial_nodes;
  current_chunk_id = selected_chunk_id;
  selected = [];
}

-- activeChunk
unfoldable pub active_chunk : Ring → ChunkInfo
active_chunk r = get_or (find? (λ c. same c.id r.current_chunk_id) sample_chunks) first_chunk

-- `chunkAngleMap[id] ?? 45`
unfoldable pub angle_of : String → ℕ
angle_of id =
    if same id "chunk-a"
    then 54
    else if same id "chunk-b"
    then 195
    else if same id "chunk-c"
    then 345
    else if same id "chunk-d"
    then 120
    else 45

-- chunkAngle
unfoldable pub chunk_angle : Ring → ℕ
unfolding active_chunk angle_of
chunk_angle r = angle_of (active_chunk r).id

pub data Event : Type 0 where
  toggle_node : String → Event
  select_chunk : String → Event

unfoldable pub toggle : String → NodePos → NodePos
toggle id n = if same n.id id then record n { active = not n.active } else n

unfoldable pub handle : Event → Ring → Ring
unfolding toggle
handle (toggle_node id) r = record r { nodes = map (toggle id) r.nodes }
handle (select_chunk id) r = record r { current_chunk_id = id; selected = id ∷ r.selected }

-- `xs.includes(x)`
abbrev pub includes : List String → String → Bool
includes xs x = any (λ y. same y x) xs
