-- ===== src/Canvas/Coding/Rebuild.antt =====
-- ErasureCoding3D.tsx: what the delayed reconstruction does, whatever is clicked while it runs.
use cloud_weave.Prelude.{
  ℕ, suc, ◌+◌, ◌≤◌, String, true, false, not, ◌&&◌, List, [], ◌∷◌, ◌++◌, length, ltb, count_of,
  count_of-add_not, if◌then◌else◌, ◌≡◌, refl, ap, ◌∙◌, append-nil, length-map, arith,
}
use cloud_weave.Html.{clicks, each}
use cloud_weave.EventLoop.{World, fire, IsOrdered}
use cloud_weave.Canvas.Coding.{
  ShardBlock, Coding, initial, toggle_shard, alive_count, failed_count, can_reconstruct, all_alive,
  Task, finish, run, Event, toggle, reconstruct, reset, handle,
}
use cloud_weave.Canvas.Coding.View.{view, shard_cube}

alive_count-all : (ss : List ShardBlock) → alive_count (all_alive ss) ≡ length ss
unfolding alive_count all_alive
alive_count-all [] = refl
alive_count-all (s ∷ ss) = ap suc (alive_count-all ss)

length-all : (ss : List ShardBlock) → length (all_alive ss) ≡ length ss
unfolding all_alive
length-all ss = length-map _ ss

failed_count-all : (ss : List ShardBlock) → failed_count (all_alive ss) ≡ 0
unfolding failed_count
failed_count-all ss = rw (alive_count-all ss, length-all ss) (omega arith)

-- Clicks on shards, one after another.
abbrev pub toggles : List String → World Coding Task → World Coding Task
toggles [] w = w
toggles (id ∷ ids) w = toggles ids (handle (toggle id) w)

toggles-queue : (ids : List String) (w : World Coding Task) → (toggles ids w).queue ≡ w.queue
toggles-queue [] w = refl
toggles-queue (id ∷ ids) w = toggles-queue ids (handle (toggle id) w) ∙ (unfold handle in refl)

fire_finish :
    (v : World Coding Task) (due : ℕ)
    → v.queue ≡ (due, finish) ∷ []
    → failed_count (fire run v).state.shards ≡ 0
unfolding run
fire_finish v due e = rw e (failed_count-all v.state.shards)

-- A reconstruction that was started with enough shards does not look again at how many are left:
-- whatever shards are failed while it runs, so that too few are alive, it ends with none failed.
pub rebuild_regardless :
    (w : World Coding Task) (ids : List String)
    → w.queue ≡ []
    → can_reconstruct w.state.shards ≡ true
    → let v = toggles ids (handle reconstruct w) in
      can_reconstruct v.state.shards ≡ false → failed_count (fire run v).state.shards ≡ 0
rebuild_regardless w ids quiet enough few =
    fire_finish (toggles ids (handle reconstruct w)) (w.now + 1200)
      (toggles-queue ids (handle reconstruct w) ∙ (unfold handle in rw (enough, quiet) refl))

-- The events that a click on each of the drawn shards raises, a shard being a solid and a label.
abbrev pub shard_clicks : List ShardBlock → List Event
shard_clicks [] = []
shard_clicks (s ∷ ss) = toggle s.id ∷ toggle s.id ∷ shard_clicks ss

clicks-cubes : (ss : List ShardBlock) → clicks (each ss shard_cube) ≡ shard_clicks ss
unfolding shard_cube
clicks-cubes [] = refl
clicks-cubes (s ∷ ss) = ap (λ t. toggle s.id ∷ toggle s.id ∷ t) (clicks-cubes ss)

-- A reconstruction is offered exactly when a shard has failed, at least four are alive and none is
-- running; a reset and a click on each shard are always offered.
pub clicks-coding_view :
    (s : Coding)
    → clicks (view s)
      ≡ (if ltb 0 (failed_count s.shards) && (can_reconstruct s.shards && not s.is_reconstructing)
          then reconstruct ∷ []
          else [])
        ++ (reset ∷ shard_clicks s.shards)
unfolding view
clicks-coding_view s = ground (
  arith,
  clicks-cubes s.shards,
  append-nil (clicks (each s.shards shard_cube)),
  append-nil (shard_clicks s.shards),
)

-- The states that the handlers and the timer lead to.
pub data Reachable : World Coding Task → Type 0 where
  open_page : (now : ℕ) → Reachable (record { state = initial; now = now; queue = [] })
  click : {w : World Coding Task} (e : Event) → Reachable w → Reachable (handle e w)
  timer : {w : World Coding Task} → Reachable w → Reachable (fire run w)
  -- Time passes, but not beyond the first task that is due.
  wait :
      {w : World Coding Task} (later : ℕ)
      → Reachable w
      → IsOrdered later w.queue
      → w.now ≤ later
      → Reachable (record w { now = later })

length-toggle : (id : String) (ss : List ShardBlock) → length (toggle_shard id ss) ≡ length ss
unfolding toggle_shard
length-toggle id ss = length-map _ ss

length-handle :
    (e : Event) (w : World Coding Task) → length (handle e w).state.shards ≡ length w.state.shards
unfolding handle
length-handle (toggle id) w = length-toggle id w.state.shards
length-handle reconstruct w = ground arith
length-handle reset w = length-all w.state.shards

length-fire :
    (w : World Coding Task) (q : List (ℕ × Task))
    → w.queue ≡ q
    → length (fire run w).state.shards ≡ length w.state.shards
unfolding run
length-fire w [] e = rw e refl
length-fire w ((due, finish) ∷ q) e = rw e (length-all w.state.shards)

length-Reachable : {w : World Coding Task} → Reachable w → length w.state.shards ≡ 6
length-Reachable (open_page now) = refl
length-Reachable (click {w} e r) = length-handle e w ∙ length-Reachable r
length-Reachable (wait later r o h) = length-Reachable r
length-Reachable (timer {w} r) = length-fire w w.queue refl ∙ length-Reachable r

counts :
    (ss : List ShardBlock)
    → length ss ≡ 6
    → (alive_count ss + failed_count ss ≡ 6) × (failed_count ss ≡ count_of (λ s. not s.alive) ss)
unfolding failed_count
counts ss six = ground (arith, count_of-add_not (λ s. s.alive) ss)

-- In every reachable world the counts of shards that are alive and failed are those of six shards.
pub counts_of_coding :
    {w : World Coding Task}
    → Reachable w
    → (alive_count w.state.shards + failed_count w.state.shards ≡ 6)
      × (failed_count w.state.shards ≡ count_of (λ s. not s.alive) w.state.shards)
counts_of_coding {w} r = counts w.state.shards (length-Reachable r)
