-- ===== src/Canvas/Failure/Copies.antt =====
-- FailureCanvas.tsx: how many nodes hold a copy of each chunk, whatever is clicked and whenever the
-- timers run.
use mathlib.Core.List.{Memᴰ}
use cloud_weave.Prelude.{
  ℕ, ◌+◌, ◌≤◌, List, [], ◌∷◌, map, ◌≡◌, refl, subst, sym, inl, inr, length, if◌then◌else◌, arith,
}
use cloud_weave.Html.{clicks, each, tag_count}
use cloud_weave.EventLoop.{World, fire, IsOrdered}
use cloud_weave.Canvas.Failure.{
  Phase, MeshNode, Mesh, initial, Task, fail, repair, recover, lose_node, fail_node, repair_node,
  lose, run, Event, kill_node, reset, handle,
}
use cloud_weave.Canvas.Failure.View.{view, link, mesh_node, is_idle, is_repairing}
use cloud_weave.Canvas.Failure.Holdings.{
  copies, holdings, copies-holdings, repaired, HoldsOne, IsHeld, holdings-lose, IsHeld-recover,
  IsHeld-run,
}

-- The worlds that clicks on what is shown and timers lead to, from a page opened at time `now`.
pub data Reachable : World Mesh Task → Type 0 where
  open_page : (now : ℕ) → Reachable (record { state = initial; now = now; queue = [] })
  click :
      {w : World Mesh Task} {e : Event}
      → Reachable w
      → Memᴰ e (clicks (view w.state))
      → Reachable (handle e w)
  timer : {w : World Mesh Task} → Reachable w → Reachable (fire run w)
  -- Time passes, but not beyond the first task that is due.
  wait :
      {w : World Mesh Task} (later : ℕ)
      → Reachable w
      → IsOrdered later w.queue
      → w.now ≤ later
      → Reachable (record w { now = later })

IsHeld-handle :
    (e : Event) (w : World Mesh Task)
    → IsHeld w.state.nodes_state
    → IsHeld (handle e w).state.nodes_state
unfolding handle lose
IsHeld-handle kill_node w h = subst HoldsOne (sym (holdings-lose w.state.nodes_state)) h
IsHeld-handle reset w h = inl refl

IsHeld-fire :
    (w : World Mesh Task) (q : List (ℕ × Task))
    → w.queue ≡ q
    → IsHeld w.state.nodes_state
    → IsHeld (fire run w).state.nodes_state
IsHeld-fire w [] e h = rw e h
IsHeld-fire w ((due, t) ∷ q) e h = rw e (IsHeld-run t w.state h)

Reachable-IsHeld : {w : World Mesh Task} → Reachable w → IsHeld w.state.nodes_state
Reachable-IsHeld (open_page now) = inl refl
Reachable-IsHeld (click {w} {e} r m) = IsHeld-handle e w (Reachable-IsHeld r)
Reachable-IsHeld (wait later r o h) = Reachable-IsHeld r
Reachable-IsHeld (timer {w} r) = IsHeld-fire w w.queue refl (Reachable-IsHeld r)

counts_held :
    (ns : List MeshNode)
    → IsHeld ns
    → (copies "A" ns ≡ 3)
      × (copies "B" ns ≡ 3)
      × (1 ≤ copies "C" ns)
      × (copies "C" ns ≤ 2)
      × (2 ≤ copies "D" ns)
counts_held ns h =
    rw
      (
        copies-holdings "A" ns,
        copies-holdings "B" ns,
        copies-holdings "C" ns,
        copies-holdings "D" ns,
      )
      (elim h [
        | inl e ↦ rw e (refl, refl, omega arith, omega arith, omega arith)
        | inr (inl e) ↦ rw e (refl, refl, omega arith, omega arith, omega arith)
        | inr (inr e) ↦ rw e (refl, refl, omega arith, omega arith, omega arith)
      ])

-- In every reachable world chunks A and B have three copies, chunk D has at least two, and chunk C
-- has at least one and never three.
pub no_chunk_lost :
    {w : World Mesh Task}
    → Reachable w
    → (copies "A" w.state.nodes_state ≡ 3)
      × (copies "B" w.state.nodes_state ≡ 3)
      × (1 ≤ copies "C" w.state.nodes_state)
      × (copies "C" w.state.nodes_state ≤ 2)
      × (2 ≤ copies "D" w.state.nodes_state)
no_chunk_lost {w} r = counts_held w.state.nodes_state (Reachable-IsHeld r)

-- The world right after a click on the button, if no timer was running.
pub killed :
    (w : World Mesh Task)
    → w.queue ≡ []
    → handle kill_node w ≡ record {
      state = lose w.state;
      now = w.now;
      queue = (w.now + 1500, fail) ∷ (w.now + 3200, repair) ∷ (w.now + 5400, recover) ∷ [];
    }
unfolding handle
killed w quiet = rw quiet (ground arith)

-- What is held just before the last timer of a failure.
IsHeld-settled :
    (w : World Mesh Task)
    → Reachable w
    → IsHeld (map repair_node (map fail_node (map lose_node w.state.nodes_state)))
IsHeld-settled w r =
    unfold run lose in
    IsHeld-run repair (run fail (lose w.state)) (
      IsHeld-run fail (lose w.state)
        (unfold handle lose in IsHeld-handle kill_node w (Reachable-IsHeld r)))

repaired_counts :
    (ns : List MeshNode) → holdings ns ≡ repaired → (copies "C" ns ≡ 2) × (copies "D" ns ≡ 2)
repaired_counts ns e = rw (copies-holdings "C" ns, copies-holdings "D" ns, e) (refl, refl)

-- From any reachable world in which no timer runs, the failure of Node 3 followed by its three
-- timers takes 5.4 seconds and ends in the recovered phase with no timer left; chunks C and D then
-- have two copies each, while the message announces three.
pub recovered_below_three :
    {w : World Mesh Task}
    → Reachable w
    → w.queue ≡ []
    → let v = fire run (fire run (fire run (handle kill_node w))) in
      (v.state.phase ≡ Phase.recovered)
      × (v.queue ≡ [])
      × (v.now ≡ w.now + 5400)
      × (v.state.status_message
          ≡ "Cluster Healthy: Chunk C restored on Node 4 - Replication back to N=3")
      × (copies "C" v.state.nodes_state ≡ 2)
      × (copies "D" v.state.nodes_state ≡ 2)
recovered_below_three {w} r quiet =
    let two = repaired_counts _ (IsHeld-recover _ (IsHeld-settled w r)) in
    rw (killed w quiet) (unfold run lose in (refl, refl, refl, refl, two.0, two.1))

no_clicks_links : (s : Mesh) (ns : List MeshNode) → clicks (each ns (link s)) ≡ []
unfolding link
no_clicks_links s [] = refl
no_clicks_links s (n ∷ ns) = no_clicks_links s ns

no_clicks_nodes : (s : Mesh) (ns : List MeshNode) → clicks (each ns (mesh_node s)) ≡ []
unfolding mesh_node
no_clicks_nodes s [] = refl
no_clicks_nodes s (n ∷ ns) = no_clicks_nodes s ns

lines_of_links : (s : Mesh) (ns : List MeshNode) → tag_count "line" (each ns (link s)) ≡ length ns
unfolding link
lines_of_links s [] = refl
lines_of_links s (n ∷ ns) = ground (arith, lines_of_links s ns)

no_lines_nodes : (s : Mesh) (ns : List MeshNode) → tag_count "line" (each ns (mesh_node s)) ≡ 0
unfolding mesh_node
no_lines_nodes s [] = refl
no_lines_nodes s (n ∷ ns) = ground (arith, no_lines_nodes s ns)

-- The one button that is offered kills Node 3 in the idle phase and resets in every other, and the
-- drawing has one line for each node and one more for the repair while it runs.
pub clicks-mesh_view :
    (s : Mesh)
    → (clicks (view s) ≡ (if is_idle s.phase then kill_node ∷ [] else reset ∷ []))
      × (tag_count "line" (view s) ≡ length s.nodes_state + (if is_repairing s.phase then 1 else 0))
unfolding view
clicks-mesh_view s = ground (
  arith,
  no_clicks_links s s.nodes_state,
  no_clicks_nodes s s.nodes_state,
  lines_of_links s s.nodes_state,
  no_lines_nodes s s.nodes_state,
)

-- A reset right after the click that kills Node 3 does not stop the failure: when the timers have
-- run, the phase is the recovered one and chunk C is announced to be repaired.
pub reset_overrun :
    {w : World Mesh Task}
    → Reachable w
    → w.queue ≡ []
    → let v = fire run (fire run (fire run (handle reset (handle kill_node w)))) in
      (v.state.phase ≡ Phase.recovered) × (v.queue ≡ []) × (copies "C" v.state.nodes_state ≡ 2)
reset_overrun {w} r quiet = rw (killed w quiet) (unfold handle run in (refl, refl, refl))
