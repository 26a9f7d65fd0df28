-- ===== src/Playground/Quorum.antt =====
-- documentation/components/playground/QuorumVisualizer.tsx: the state of the component and its
-- handlers. A slider's event carries the number it stands at, which the browser keeps between the
-- slider's `min` and `max`.
pub mod View
pub mod Overlap
pub mod Laws
mod Tests
use cloud_weave.Prelude.{
  ℕ, ◌+◌, String, Bool, not, Option, none, some, List, [], ◌∷◌, map, count_of, leb, ltb, ◌==◌,
  if◌then◌else◌, show, cat,
}

pub record Quorum : Type 0 where
  pub w : ℕ
  pub r : ℕ
  pub n : ℕ
  pub failed_node : Option ℕ

pub record Ack : Type 0 where
  pub node : String
  pub node_num : ℕ
  pub acknowledged : Bool

-- The values that the hooks start with.
unfoldable pub initial : Quorum
initial = record { w = 2; r = 2; n = 3; failed_node = some 3 }

-- `failedNode === k`
abbrev pub is : Option ℕ → ℕ → Bool
is none k = Bool.false
is (some j) k = j == k

pub data Event : Type 0 where
  set_w set_r toggle_node_fail : ℕ → Event

unfoldable pub toggle : ℕ → Option ℕ → Option ℕ
toggle node_idx prev = if is prev node_idx then none else some node_idx

unfoldable pub update : Event → Quorum → Quorum
unfolding toggle
update (set_w v) s = record s { w = v }
update (set_r v) s = record s { r = v }
update (toggle_node_fail k) s = record s { failed_node = toggle k s.failed_node }

unfoldable pub acks : Quorum → List Ack
acks s =
    map
      (λ k. record {
        node = cat "Node " (show k);
        node_num = k;
        acknowledged = not (is s.failed_node k);
      })
      (1 ∷ 2 ∷ 3 ∷ [])

unfoldable pub ack_count : Quorum → ℕ
unfolding acks
ack_count s = count_of (λ a. a.acknowledged) (acks s)

unfoldable pub write_success : Quorum → Bool
unfolding ack_count
write_success s = leb s.w (ack_count s)

unfoldable pub strong_consistency : Quorum → Bool
strong_consistency s = ltb s.n (s.w + s.r)
