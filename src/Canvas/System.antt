-- ===== src/Canvas/System.antt =====
-- documentation/components/canvas/MasterSystemCanvas.tsx: the five stages of an upload, played in turn
-- by a timer that an effect keeps. The speed counts halves: 1 is 0.5x and 4 is 2x.
pub mod View
pub mod Playback
pub mod Laps
pub mod Shown
mod Tests
use cloud_weave.Prelude.{
  ℕ, zero, suc, ◌+◌, ◌/◌, String, Bool, true, false, not, ◌&&◌, any, Option, none, some, List, [],
  ◌∷◌, get_elem?, find?, get_or, leb, ◌==◌, if◌then◌else◌, same,
}
use cloud_weave.EventLoop.Effect.{Ticking, Effect, act, tick, mount}

pub record ChunkItem : Type 0 where
  pub id : String
  pub name : String
  pub size_mb : ℕ
  pub hash_short : String
  pub angle_deg : ℕ
  pub primary_node : ℕ
  pub replicas : List ℕ

abbrev pub chunks_data : List ChunkItem
chunks_data =
    record {
      id = "a";
      name = "Chunk A";
      size_mb = 16;
      hash_short = "8f3a...91c2";
      angle_deg = 54;
      primary_node = 2;
      replicas = 3 ∷ 4 ∷ [];
    }
    ∷ record {
      id = "b";
      name = "Chunk B";
      size_mb = 16;
      hash_short = "17bd...82a1";
      angle_deg = 195;
      primary_node = 4;
      replicas = 5 ∷ 1 ∷ [];
    }
    ∷ record {
      id = "c";
      name = "Chunk C";
      size_mb = 16;
      hash_short = "a92c...11ef";
      angle_deg = 330;
      primary_node = 1;
      replicas = 2 ∷ 3 ∷ [];
    }
    ∷ record {
      id = "d";
      name = "Chunk N";
      size_mb = 16;
      hash_short = "7b3f...91c8";
      angle_deg = 120;
      primary_node = 3;
      replicas = 1 ∷ 5 ∷ [];
    }
    ∷ []

pub record NodeCoord : Type 0 where
  pub id : ℕ
  pub name : String
  pub x : ℕ
  pub y : ℕ
  pub role : String
  pub cap : String
  pub chunks : ℕ
  pub bar_w : ℕ

abbrev pub node_coords : List NodeCoord
node_coords =
    record {
      id = 1;
      name = "Node 1";
      x = 450;
      y = 195;
      role = "Replica";
      cap = "2.1 GB / 10 GB";
      chunks = 15;
      bar_w = 42;
    }
    ∷ record {
      id = 2;
      name = "Node 2";
      x = 595;
      y = 255;
      role = "Peer";
      cap = "2.4 GB / 10 GB";
      chunks = 15;
      bar_w = 48;
    }
    ∷ record {
      id = 3;
      name = "Node 3";
      x = 550;
      y = 440;
      role = "Primary";
      cap = "2.1 GB / 10 GB";
      chunks = 14;
      bar_w = 42;
    }
    ∷ record {
      id = 4;
      name = "Node 4";
      x = 350;
      y = 440;
      role = "Peer";
      cap = "2.0 GB / 10 GB";
      chunks = 13;
      bar_w = 40;
    }
    ∷ record {
      id = 5;
      name = "Node 5";
      x = 305;
      y = 255;
      role = "Replica";
      cap = "1.8 GB / 10 GB";
      chunks = 11;
      bar_w = 36;
    }
    ∷ []

pub record Stage : Type 0 where
  pub num : ℕ
  pub label : String

abbrev pub steps_list : List Stage
steps_list =
    record { num = 1; label = "Upload" }
    ∷ record { num = 2; label = "Chunking" }
    ∷ record { num = 3; label = "Distribution" }
    ∷ record { num = 4; label = "Replication" }
    ∷ record { num = 5; label = "Complete" }
    ∷ []

abbrev pub step_descriptions : List String
step_descriptions =
    "Stage 1: S3 PUT /video.mp4 (2.4 GB) stream arrives via AWS SigV4 REST gateway"
    ∷ "Stage 2: FastCDC Gear rolling hash computes dynamic chunk boundaries (16 KB - 256 KB)"
    ∷ "Stage 3: SHA-256 CAS chunk IDs are routed to primary storage nodes via 150-vnode hash ring"
    ∷ "Stage 4: Asynchronous quorum fan-out replicates chunk copies to N=3 distinct physical hosts"
    ∷ "Stage 5: Quorum achieved (W=2/2 fsync ACKs) · Object manifest atomically committed to WAL"
    ∷ []

pub record Player : Type 0 where
  pub step : ℕ
  pub is_playing : Bool
  pub speed : ℕ
  pub selected_chunk_id : String
  pub inspected_node : Option ℕ

abbrev pub initial : Player
initial = record {
  step = 3;
  is_playing = true;
  speed = 2;
  selected_chunk_id = "d";
  inspected_node = none;
}

-- chunksData[3]
abbrev pub last_chunk : ChunkItem
last_chunk = record {
  id = "d";
  name = "Chunk N";
  size_mb = 16;
  hash_short = "7b3f...91c8";
  angle_deg = 120;
  primary_node = 3;
  replicas = 1 ∷ 5 ∷ [];
}

-- activeChunk
unfoldable pub active_chunk : Player → ChunkItem
active_chunk p = get_or (find? (λ c. same c.id p.selected_chunk_id) chunks_data) last_chunk

-- `prev >= 5 ? 1 : prev + 1`
unfoldable pub following : ℕ → ℕ
following prev = if leb 5 prev then 1 else prev + 1

pub data Event : Type 0 where
  go_to : ℕ → Event
  select_chunk : String → Event
  inspect : ℕ → Event
  toggle_playing next_step reset : Event
  set_speed : ℕ → Event

-- `id === inspectedNode`
abbrev pub is_inspected : ℕ → Option ℕ → Bool
is_inspected id none = false
is_inspected id (some n) = id == n

unfoldable pub update : Event → Player → Player
unfolding following
update (go_to n) p = record p { step = n }
update (select_chunk id) p = record p { selected_chunk_id = id }
update (inspect id) p = record p {
  inspected_node = if is_inspected id p.inspected_node then none else some id;
}
update toggle_playing p = record p { is_playing = not p.is_playing }
update next_step p = record p { step = following p.step }
update reset p = record p { is_playing = false; step = 1 }
update (set_speed v) p = record p { speed = v }

-- The callback of the timer.
unfoldable pub advance : Player → Player
unfolding following
advance p = record p { step = following p.step }

-- The effect, which depends on isPlaying, step and speed. The delay of 2800 / speed milliseconds is
-- cut to whole ones by setTimeout.
unfoldable pub playback : Effect Player
playback = record {
  same_deps = λ p q.
      (if p.is_playing then q.is_playing else not q.is_playing)
      && ((p.step == q.step) && (p.speed == q.speed));
  delay = λ p. if p.is_playing then some (5600 / p.speed) else none;
}

unfoldable pub handle : Event → Ticking Player → Ticking Player
unfolding update playback
handle e w = act playback (update e) w

-- The timer fires.
unfoldable pub elapse : Ticking Player → Ticking Player
unfolding advance playback
elapse w = tick playback advance w

-- `xs[step - 1]`
abbrev pub at_step {ℓ} : {A : Type ℓ} → List A → ℕ → Option A
at_step xs zero = none
at_step xs (suc i) = get_elem? xs i

-- `stepsList[step - 1].label`, which throws where there is no such stage.
unfoldable pub label_of : ℕ → Option String
label_of step = elim (at_step steps_list step) [ none ↦ none | some s ↦ some s.label ]

-- `stepDescriptions[step - 1]`, where nothing is shown for `undefined`.
unfoldable pub description_of : ℕ → String
description_of step = get_or (at_step step_descriptions step) ""

abbrev pub cx : ℕ
cx = 450

abbrev pub cy : ℕ
cy = 345

abbrev pub ring_r : ℕ
ring_r = 125

-- What the number of a speed prints.
abbrev pub speed_text : ℕ → String
speed_text n = if n == 1 then "0.5" else if n == 2 then "1" else if n == 3 then "1.5" else "2"

-- `xs.includes(x)`
abbrev pub has : List ℕ → ℕ → Bool
has xs x = any (λ y. y == x) xs
