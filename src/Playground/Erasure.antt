-- ===== src/Playground/Erasure.antt =====
-- documentation/components/playground/ErasureCodingPlayground.tsx: six shards of which any four
-- restore the object. ErasureCanvas and ErasureCoding3D under documentation/components/canvas hold
-- the same six shards and toggle them by the same code.
pub mod View
pub mod Counts
pub mod Canvas
mod Tests
use cloud_weave.Prelude.{
  ℕ, ◌-◌, String, Bool, true, false, not, List, [], ◌∷◌, map, count_of, leb, if◌then◌else◌, same,
}

pub data Kind : Type 0 where
  data_shard parity : Kind

pub record Shard : Type 0 where
  pub id : String
  pub name : String
  pub kind : Kind
  pub node : String
  pub alive : Bool

pub data Mode : Type 0 where
  erasure replication : Mode

pub record Lab : Type 0 where
  pub mode : Mode
  pub shards : List Shard

abbrev pub initial_shards : List Shard
initial_shards =
    record { id = "d1"; name = "D1 (Data)"; kind = data_shard; node = "Node 1"; alive = true }
    ∷ record { id = "d2"; name = "D2 (Data)"; kind = data_shard; node = "Node 2"; alive = true }
    ∷ record { id = "d3"; name = "D3 (Data)"; kind = data_shard; node = "Node 3"; alive = true }
    ∷ record { id = "d4"; name = "D4 (Data)"; kind = data_shard; node = "Node 4"; alive = true }
    ∷ record { id = "p1"; name = "P1 (Parity)"; kind = parity; node = "Node 5"; alive = true }
    ∷ record { id = "p2"; name = "P2 (Parity)"; kind = parity; node = "Node 6"; alive = true }
    ∷ []

abbrev pub initial : Lab
initial = record { mode = erasure; shards = initial_shards }

unfoldable pub toggle_shard : String → List Shard → List Shard
toggle_shard id prev = map (λ s. if same s.id id then record s { alive = not s.alive } else s) prev

unfoldable pub alive_count : List Shard → ℕ
alive_count shards = count_of (λ s. s.alive) shards

unfoldable pub failed_count : List Shard → ℕ
unfolding alive_count
failed_count shards = 6 - alive_count shards

unfoldable pub can_reconstruct : List Shard → Bool
unfolding alive_count
can_reconstruct shards = leb 4 (alive_count shards)

-- handleReset
unfoldable pub restore_all : List Shard → List Shard
restore_all prev = map {A = Shard} (λ s. record s { alive = true }) prev

pub data Event : Type 0 where
  set_mode : Mode → Event
  toggle : String → Event
  restore : Event

unfoldable pub update : Event → Lab → Lab
unfolding toggle_shard restore_all
update (set_mode m) s = record s { mode = m }
update (toggle id) s = record s { shards = toggle_shard id s.shards }
update restore s = record s { shards = restore_all s.shards }
