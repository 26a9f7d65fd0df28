-- ===== src/Playground/Erasure/Counts.antt =====
-- ErasureCodingPlayground.tsx and ErasureCanvas.tsx: how many shards are alive, and when the object
-- can be reconstructed.
use cloud_weave.Prelude.{
  ℕ, suc, ◌+◌, ◌≤◌, String, Bool, true, not, List, [], ◌∷◌, map, ◌≡◌, ◌↔◌, refl, ap, ◌∙◌,
  append-nil, length, count_of, count_of-add_not, same, if◌then◌else◌, arith, sym,
}
use cloud_weave.Html.{clicks, tag_count, each}
use cloud_weave.Playground.Erasure.{
  Shard, erasure, replication, Lab, initial, initial_shards, toggle_shard, alive_count,
  failed_count, can_reconstruct, restore_all, Event, set_mode, toggle, restore, update,
}
use cloud_weave.Playground.Erasure.View.{view, shard_card, is_erasure}
use cloud_weave.Playground.Erasure.Canvas.{board, board_card}

abbrev has_id : String → Shard → Bool
has_id id s = same s.id id

-- How many shards have failed.
abbrev pub dead : List Shard → ℕ
dead shards = count_of (λ s. not s.alive) shards

-- How many shards with this id are alive.
abbrev pub alive_with : String → List Shard → ℕ
alive_with id [] = 0
alive_with id (s ∷ ss) = (if same s.id id then if s.alive then 1 else 0 else 0) + alive_with id ss

-- Toggling the shards with an id brings to life those that were dead and the other way round.
pub alive_count-toggle :
    (id : String) (shards : List Shard)
    → alive_count (toggle_shard id shards) + (alive_with id shards + alive_with id shards)
      ≡ alive_count shards + count_of (λ s. same s.id id) shards
unfolding alive_count toggle_shard
alive_count-toggle id [] = omega arith
alive_count-toggle id (s ∷ ss) = ground (arith, alive_count-toggle id ss)

-- Clicking a shard a second time undoes the first click.
pub toggle-toggle :
    (id : String) (shards : List Shard) → toggle_shard id (toggle_shard id shards) ≡ shards
unfolding toggle_shard
toggle-toggle id [] = refl
toggle-toggle id (s ∷ ss) = ground (arith, toggle-toggle id ss)

abbrev pub ids : List Shard → List String
ids = map (λ s. s.id)

pub ids-toggle : (id : String) (shards : List Shard) → ids (toggle_shard id shards) ≡ ids shards
unfolding toggle_shard
ids-toggle id [] = refl
ids-toggle id (s ∷ ss) = ground (arith, ids-toggle id ss)

pub ids-restore : (shards : List Shard) → ids (restore_all shards) ≡ ids shards
unfolding restore_all
ids-restore [] = refl
ids-restore (s ∷ ss) = ap (λ t. s.id ∷ t) (ids-restore ss)

-- The states that the handlers lead to.
pub data Reachable : Lab → Type 0 where
  start : Reachable initial
  event : {s : Lab} → Reachable s → (e : Event) → Reachable (update e s)

update-ids : (e : Event) (s : Lab) → ids (update e s).shards ≡ ids s.shards
unfolding update
update-ids (set_mode m) s = refl
update-ids (toggle id) s = ids-toggle id s.shards
update-ids restore s = ids-restore s.shards

-- Whatever is clicked, the six shards keep their ids and their order.
pub Reachable-shard_ids : {s : Lab} → Reachable s → ids s.shards ≡ ids initial_shards
Reachable-shard_ids start = refl
Reachable-shard_ids (event {s} r e) = update-ids e s ∙ Reachable-shard_ids r

length-ids : (shards : List Shard) → length (ids shards) ≡ length shards
length-ids [] = refl
length-ids (s ∷ ss) = ap suc (length-ids ss)

pub six_shards : {s : Lab} → Reachable s → length s.shards ≡ 6
six_shards {s} r = sym (length-ids s.shards) ∙ ap length (Reachable-shard_ids r)

counts_of_six :
    (shards : List Shard)
    → length shards ≡ 6
    → (failed_count shards ≡ dead shards) × ((can_reconstruct shards ≡ true) ↔ (dead shards ≤ 2))
unfolding failed_count can_reconstruct
counts_of_six shards six = ground (arith, count_of-add_not (λ s. s.alive) shards)

-- In every reachable state the number of failures shown is the number of dead shards, and the
-- object is called reconstructible exactly when at most two shards are dead.
pub reconstructible_iff :
    {s : Lab}
    → Reachable s
    → (failed_count s.shards ≡ dead s.shards)
      × ((can_reconstruct s.shards ≡ true) ↔ (dead s.shards ≤ 2))
reconstructible_iff {s} r = counts_of_six s.shards (six_shards r)

alive_count-restore : (shards : List Shard) → alive_count (restore_all shards) ≡ length shards
unfolding alive_count restore_all
alive_count-restore [] = refl
alive_count-restore (s ∷ ss) = ap suc (alive_count-restore ss)

-- The cards of the grid show a tick for each shard that is alive and a cross for each dead one,
-- and a click on a card toggles its shard.
pub cards :
    (shards : List Shard)
    → (tag_count "Check" (each shards shard_card) ≡ alive_count shards)
      × (tag_count "X" (each shards shard_card) ≡ dead shards)
      × (clicks (each shards shard_card) ≡ map (λ s. toggle s.id) shards)
unfolding shard_card alive_count
cards [] = (refl, refl, refl)
cards (s ∷ ss) = ground (arith, cards ss)

board_cards :
    (shards : List Shard)
    → (tag_count "Check" (each shards board_card) ≡ alive_count shards)
      × (tag_count "X" (each shards board_card) ≡ dead shards)
      × (clicks (each shards board_card) ≡ map (λ s. toggle s.id) shards)
unfolding board_card alive_count
board_cards [] = (refl, refl, refl)
board_cards (s ∷ ss) = ground (arith, board_cards ss)

-- ErasureCanvas shows a tick for each shard that is alive and a cross for each dead one, and
-- offers to restore all of them or to toggle any one.
pub board-counts :
    (shards : List Shard)
    → (tag_count "Check" (board shards) ≡ alive_count shards)
      × (tag_count "X" (board shards) ≡ dead shards)
      × (clicks (board shards) ≡ restore ∷ map (λ s. toggle s.id) shards)
unfolding board
board-counts shards =
    ground (arith, board_cards shards, append-nil (clicks (each shards board_card)))

-- Both modes offer the switch of modes; the erasure mode also offers to restore all shards and to
-- toggle each one, and the replication mode nothing else.
pub clicks-lab_view :
    (s : Lab)
    → clicks (view s)
      ≡ set_mode erasure
        ∷ set_mode replication
        ∷ (if is_erasure s.mode then restore ∷ map (λ t. toggle t.id) s.shards else [])
unfolding view
clicks-lab_view s = ground (arith, cards s.shards, append-nil (clicks (each s.shards shard_card)))
