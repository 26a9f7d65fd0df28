-- ===== src/Canvas/Coding.antt =====
-- documentation/components/canvas/ErasureCoding3D.tsx: six shards, and the reconstruction that takes
-- 1.2 seconds. A place is kept as the text of its number.
pub mod View
pub mod Rebuild
mod Tests
use cloud_weave.Prelude.{
  ℕ, ◌-◌, String, Bool, true, false, not, List, [], ◌∷◌, map, length, count_of, leb, if◌then◌else◌,
  same,
}
use cloud_weave.EventLoop.{World, change, set_timeout}

pub data Kind : Type 0 where
  data_shard parity : Kind

pub record ShardBlock : Type 0 where
  pub id : String
  pub name : String
  pub kind : Kind
  pub node : String
  pub alive : Bool
  pub x_pos : String

pub record Coding : Type 0 where
  pub shards : List ShardBlock
  pub is_reconstructing : Bool

abbrev pub initial_shards : List ShardBlock
initial_shards =
    record {
      id = "d1";
      name = "D1 (Data)";
      kind = data_shard;
      node = "Vault-01";
      alive = true;
      x_pos = "-2.25";
    }
    ∷ record {
      id = "d2";
      name = "D2 (Data)";
      kind = data_shard;
      node = "Vault-02";
      alive = true;
      x_pos = "-1.35";
    }
    ∷ record {
      id = "d3";
      name = "D3 (Data)";
      kind = data_shard;
      node = "Vault-03";
      alive = true;
      x_pos = "-0.45";
    }
    ∷ record {
      id = "d4";
      name = "D4 (Data)";
      kind = data_shard;
      node = "Vault-04";
      alive = true;
      x_pos = "0.45";
    }
    ∷ record {
      id = "p1";
      name = "P1 (Parity)";
      kind = parity;
      node = "Vault-05";
      alive = true;
      x_pos = "1.35";
    }
    ∷ record {
      id = "p2";
      name = "P2 (Parity)";
      kind = parity;
      node = "Vault-06";
      alive = true;
      x_pos = "2.25";
    }
    ∷ []

abbrev pub initial : Coding
initial = record { shards = initial_shards; is_reconstructing = false }

unfoldable pub toggle_shard : String → List ShardBlock → List ShardBlock
toggle_shard id prev = map (λ s. if same s.id id then record s { alive = not s.alive } else s) prev

unfoldable pub alive_count : List ShardBlock → ℕ
alive_count shards = count_of (λ s. s.alive) shards

unfoldable pub failed_count : List ShardBlock → ℕ
unfolding alive_count
failed_count shards = length shards - alive_count shards

unfoldable pub can_reconstruct : List ShardBlock → Bool
unfolding alive_count
can_reconstruct shards = leb 4 (alive_count shards)

unfoldable pub all_alive : List ShardBlock → List ShardBlock
all_alive prev = map {A = ShardBlock} (λ s. record s { alive = true }) prev

-- The task of the timer.
pub data Task : Type 0 where
  finish : Task

unfoldable pub run : Task → Coding → Coding
unfolding all_alive
run finish s = record { shards = all_alive s.shards; is_reconstructing = false }

pub data Event : Type 0 where
  toggle : String → Event
  reconstruct reset : Event

unfoldable pub handle_reconstruct : World Coding Task → World Coding Task
unfolding can_reconstruct
handle_reconstruct w =
    if not (can_reconstruct w.state.shards)
    then w
    else set_timeout finish 1200 (change (λ s. record s { is_reconstructing = true }) w)

-- handleReset, which leaves the timer alone.
unfoldable pub handle_reset : World Coding Task → World Coding Task
unfolding all_alive
handle_reset w = change (λ s. record { shards = all_alive s.shards; is_reconstructing = false }) w

unfoldable pub handle : Event → World Coding Task → World Coding Task
unfolding toggle_shard handle_reconstruct handle_reset
handle (toggle id) w = change (λ s. record s { shards = toggle_shard id s.shards }) w
handle reconstruct w = handle_reconstruct w
handle reset w = handle_reset w
