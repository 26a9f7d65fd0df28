-- ===== src/Playground/Recovery/Cycle.antt =====
-- FailureRecoverySimulator.tsx: a simulated failure that is left to run, and what every sequence of
-- clicks and timers keeps.
use mathlib.Core.List.{Memᴰ}
use cloud_weave.Prelude.{
  ℕ, suc, ◌+◌, ◌≤◌, String, List, [], ◌∷◌, map, ◌≡◌, refl, ◌∙◌, inl, inr, All, same, length, take,
  drop, if◌then◌else◌, arith, Bool-cases,
}
use cloud_weave.Html.{clicks, each, each_from}
use cloud_weave.EventLoop.{World, fire, IsOrdered, schedule-IsOrdered}
use cloud_weave.Playground.Recovery.{
  Stage, Status, ClusterNode, TimelineEvent, Simulator, Task, detect, repair, recover, initial,
  initial_nodes, begin_failure, detect_node, repair_node, recover_node, run, Event,
  simulate_failure, reset, handle,
}
use cloud_weave.Playground.Recovery.View.{view, is_idle, node_card, event_row}

-- What a node has become when the cluster has recovered: Node 3 is left out, empty and marked as
-- failed, and every other node is healthy.
abbrev pub IsSettled : ClusterNode → Type 0
IsSettled n =
    if same n.id "n3"
    then (n.status ≡ Status.failed) × (n.chunks ≡ 0)
    else (n.status ≡ Status.healthy) × Unit {0}

settled : (n : ClusterNode) → IsSettled (recover_node n)
unfolding recover_node
settled n = ground arith

pub All-IsSettled : (ns : List ClusterNode) → All IsSettled (map recover_node ns)
All-IsSettled [] = tt
All-IsSettled (n ∷ ns) = (settled n, All-IsSettled ns)

-- The world right after a click on the button, if no timer was running.
pub started :
    (w : World Simulator Task)
    → w.queue ≡ []
    → handle simulate_failure w ≡ record {
      state = begin_failure w.state;
      now = w.now;
      queue = (w.now + 1500, detect) ∷ (w.now + 3200, repair) ∷ (w.now + 5000, recover) ∷ [];
    }
unfolding handle
started w idle = rw idle (ground arith)

-- From any state in which no timer runs, a simulated failure followed by the three timers takes
-- five seconds, ends in the recovered stage with no timer left and settles every node; the timeline
-- then has six entries before the old ones, which it keeps as they were.
pub cycle :
    (w : World Simulator Task)
    → w.queue ≡ []
    → let v = fire run (fire run (fire run (handle simulate_failure w))) in
      (v.state.stage ≡ Stage.recovered)
      × (v.queue ≡ [])
      × (v.now ≡ w.now + 5000)
      × All IsSettled v.state.nodes
      × (length (take 6 v.state.events) ≡ 6)
      × (drop 6 v.state.events ≡ w.state.events)
unfolding run begin_failure
cycle w idle =
    rw (started w idle) (
      refl,
      refl,
      refl,
      All-IsSettled (map repair_node (map detect_node w.state.nodes)),
      refl,
      refl,
    )

abbrev pub ids : List ClusterNode → List String
ids = map (λ n. n.id)

ids-map :
    (f : ClusterNode → ClusterNode)
    → ((n : ClusterNode) → (f n).id ≡ n.id)
    → (ns : List ClusterNode) → ids (map f ns) ≡ ids ns
ids-map f h [] = refl
ids-map f h (n ∷ ns) = rw (h n, ids-map f h ns)

detect_node-id : (n : ClusterNode) → (detect_node n).id ≡ n.id
unfolding detect_node
detect_node-id n = ground arith

repair_node-id : (n : ClusterNode) → (repair_node n).id ≡ n.id
unfolding repair_node
repair_node-id n = ground arith

recover_node-id : (n : ClusterNode) → (recover_node n).id ≡ n.id
unfolding recover_node
recover_node-id n = ground arith

ids-run : (t : Task) (s : Simulator) → ids (run t s).nodes ≡ ids s.nodes
unfolding run
ids-run detect s = ids-map detect_node detect_node-id s.nodes
ids-run repair s = ids-map repair_node repair_node-id s.nodes
ids-run recover s = ids-map recover_node recover_node-id s.nodes

-- The worlds that clicks on what is shown and timers lead to, from a page opened at time `now`.
pub data Reachable : World Simulator Task → Type 0 where
  open_page : (now : ℕ) → Reachable (record { state = initial; now = now; queue = [] })
  click :
      {w : World Simulator Task} {e : Event}
      → Reachable w
      → Memᴰ e (clicks (view w.state))
      → Reachable (handle e w)
  timer : {w : World Simulator Task} → Reachable w → Reachable (fire run w)
  -- Time passes, but not beyond the first task that is due.
  wait :
      {w : World Simulator Task} (later : ℕ)
      → Reachable w
      → IsOrdered later w.queue
      → w.now ≤ later
      → Reachable (record w { now = later })

handle-ids :
    (e : Event) (w : World Simulator Task)
    → ids w.state.nodes ≡ ids initial_nodes
    → ids (handle e w).state.nodes ≡ ids initial_nodes
unfolding handle
handle-ids simulate_failure w h = h
handle-ids reset w h = refl

fire-ids :
    (w : World Simulator Task) (q : List (ℕ × Task))
    → w.queue ≡ q
    → ids w.state.nodes ≡ ids initial_nodes
    → ids (fire run w).state.nodes ≡ ids initial_nodes
fire-ids w [] e h = rw e h
fire-ids w ((due, t) ∷ q) e h = rw e (ids-run t w.state ∙ h)

-- In every reachable world, resets at any time included, the grid shows the five nodes n1 to n5
-- in this order.
pub Reachable-ids :
    {w : World Simulator Task}
    → Reachable w
    → ids w.state.nodes ≡ "n1" ∷ "n2" ∷ "n3" ∷ "n4" ∷ "n5" ∷ []
Reachable-ids (open_page now) = refl
Reachable-ids (click {w} {e} r m) = handle-ids e w (Reachable-ids r)
Reachable-ids (wait later r o h) = Reachable-ids r
Reachable-ids (timer {w} r) = fire-ids w w.queue refl (Reachable-ids r)

no_clicks_cards : (ns : List ClusterNode) → clicks (each ns node_card) ≡ []
unfolding node_card
no_clicks_cards [] = refl
no_clicks_cards (n ∷ ns) = no_clicks_cards ns

no_clicks_rows : (i : ℕ) (es : List TimelineEvent) → clicks (each_from i es event_row) ≡ []
unfolding event_row
no_clicks_rows i [] = refl
no_clicks_rows i (e ∷ es) = no_clicks_rows (suc i) es

-- The one button that is offered starts a failure in the idle stage and resets in every other.
pub clicks-view :
    (s : Simulator)
    → clicks (view s) ≡ (if is_idle s.stage then simulate_failure ∷ [] else reset ∷ [])
unfolding view
clicks-view s =
    rw (no_clicks_cards s.nodes, no_clicks_rows 0 s.events)
      (elim (Bool-cases (is_idle s.stage)) [ inl e ↦ rw e refl | inr e ↦ rw e refl ])

fire-IsOrdered :
    (w : World Simulator Task) (q : List (ℕ × Task))
    → w.queue ≡ q
    → IsOrdered w.now w.queue
    → IsOrdered (fire run w).now (fire run w).queue
fire-IsOrdered w [] e h = rw e (rw e at h)
fire-IsOrdered w ((due, t) ∷ q) e h = rw e ((rw e at h).1)

handle-IsOrdered :
    (e : Event) (w : World Simulator Task)
    → IsOrdered w.now w.queue
    → IsOrdered (handle e w).now (handle e w).queue
unfolding handle
handle-IsOrdered reset w h = h
handle-IsOrdered simulate_failure w h =
    schedule-IsOrdered w.now (w.now + 5000) recover _ (omega arith) (
      schedule-IsOrdered w.now (w.now + 3200) repair _ (omega arith)
        (schedule-IsOrdered w.now (w.now + 1500) detect w.queue (omega arith) h))

-- However clicks, resets and timers interleave, the timers that are set are kept in the order in
-- which they are due, and none of them is overdue.
pub timers_in_order : {w : World Simulator Task} → Reachable w → IsOrdered w.now w.queue
timers_in_order (open_page now) = tt
timers_in_order (click {w} {e} r m) = handle-IsOrdered e w (timers_in_order r)
timers_in_order (timer {w} r) = fire-IsOrdered w w.queue refl (timers_in_order r)
timers_in_order (wait later r o h) = o
