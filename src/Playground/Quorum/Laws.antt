-- ===== src/Playground/Quorum/Laws.antt =====
-- QuorumVisualizer.tsx: the write banner, the cards, and the states that the handlers can reach.
use cloud_weave.Prelude.{ℕ, ◌≤◌, ◌+◌, Option, false, none, some, [], ◌∷◌, ◌≡◌, ◌≢◌, ◌↔◌, ◌⊎◌, arith}
use cloud_weave.Html.{clicks, tag_count}
use cloud_weave.Playground.Quorum.{
  Quorum, Event, set_w, set_r, toggle_node_fail, initial, toggle, update, ack_count, write_success,
}
use cloud_weave.Playground.Quorum.View.{view}

-- One of the three replicas.
abbrev pub IsReplica : ℕ → Type 0
IsReplica k = (k ≡ 1) ⊎ ((k ≡ 2) ⊎ (k ≡ 3))

-- No replica has failed, or one of the three.
abbrev pub AtMostOneFails : Option ℕ → Type 0
AtMostOneFails none = Unit
AtMostOneFails (some k) = IsReplica k

-- W and R lie where the sliders keep them, and at most one replica has failed.
pub record IsShown (s : Quorum) : Type 0 where
  pub n_is : s.n ≡ 3
  pub w_low : 1 ≤ s.w
  pub w_high : s.w ≤ 3
  pub r_low : 1 ≤ s.r
  pub r_high : s.r ≤ 3
  pub fails : AtMostOneFails s.failed_node

-- The events that the sliders and the cards can raise.
pub data Offered : Event → Type 0 where
  slide_w : (v : ℕ) → 1 ≤ v → v ≤ 3 → Offered (set_w v)
  slide_r : (v : ℕ) → 1 ≤ v → v ≤ 3 → Offered (set_r v)
  click_card : (k : ℕ) → IsReplica k → Offered (toggle_node_fail k)

pub data Reachable : Quorum → Type 0 where
  start : Reachable initial
  event : {s : Quorum} {e : Event} → Reachable s → Offered e → Reachable (update e s)

toggle-AtMostOneFails : (k : ℕ) (prev : Option ℕ) → IsReplica k → AtMostOneFails (toggle k prev)
unfolding toggle
toggle-AtMostOneFails k none h = h
toggle-AtMostOneFails k (some j) h = ground arith

update-IsShown : (s : Quorum) {e : Event} → Offered e → IsShown s → IsShown (update e s)
unfolding update
update-IsShown s (slide_w v l h) i = ground arith
update-IsShown s (slide_r v l h) i = ground arith
update-IsShown s (click_card k h) i = record {
  n_is = i.n_is;
  w_low = i.w_low;
  w_high = i.w_high;
  r_low = i.r_low;
  r_high = i.r_high;
  fails = toggle-AtMostOneFails k s.failed_node h;
}

initial-IsShown : IsShown initial
unfolding initial
initial-IsShown = ground arith

-- Whatever the sliders and cards are used for, N stays 3, W and R stay between 1 and 3, and at
-- most one of the three replicas is marked as failed.
pub Reachable-IsShown : {s : Quorum} → Reachable s → IsShown s
Reachable-IsShown start = initial-IsShown
Reachable-IsShown (event {s = t} r o) = update-IsShown t o (Reachable-IsShown r)

write_success_of_IsShown :
    (s : Quorum) → IsShown s → (write_success s ≡ false) ↔ ((s.w ≡ 3) × (s.failed_node ≢ none))
unfolding write_success
write_success_of_IsShown s i = ground arith

-- In every reachable state the write quorum fails exactly when all three acknowledgments are asked
-- for and a replica has failed.
pub write_fails_iff :
    {s : Quorum} → Reachable s → (write_success s ≡ false) ↔ ((s.w ≡ 3) × (s.failed_node ≢ none))
write_fails_iff {s} r = write_success_of_IsShown s (Reachable-IsShown r)

-- In every state the diagram shows a tick for each acknowledgment that is counted and a cross for
-- each of the other replicas, and offers to toggle each of the three.
pub view-acks :
    (s : Quorum)
    → (tag_count "Check" (view s) ≡ ack_count s)
      × (tag_count "X" (view s) + ack_count s ≡ 3)
      × (clicks (view s) ≡ toggle_node_fail 1 ∷ toggle_node_fail 2 ∷ toggle_node_fail 3 ∷ [])
unfolding view ack_count
view-acks s = ground arith
