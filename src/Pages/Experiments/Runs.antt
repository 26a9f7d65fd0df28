-- ===== src/Pages/Experiments/Runs.antt =====
-- ExperimentsView.tsx: the simulators run on the page as they do alone, and one that is left is lost.
use mathlib.Core.List.{Memᴰ}
use cloud_weave.Prelude.{
  ℕ, ◌≡◌, ◌≤◌, ◌==◌, List, [], ◌∷◌, if◌then◌else◌, refl, sym, subst, Bool-cases, inl, inr, arith,
}
use cloud_weave.Html.{clicks}
use cloud_weave.EventLoop.{World, fire, IsOrdered}
use cloud_weave.Playground.Recovery
use cloud_weave.Playground.Recovery.View as RecoveryView
use cloud_weave.Playground.Recovery.Cycle
use cloud_weave.Playground.Quorum
use cloud_weave.Playground.Quorum.Laws
use cloud_weave.Playground.Deduplication
use cloud_weave.Playground.Deduplication.Store
use cloud_weave.Playground.Erasure
use cloud_weave.Playground.Erasure.Counts
use cloud_weave.Pages.Experiments.{
  Experiment, failure, quorum, dedup, erasure, is_exp, Lab, failure_lab, quorum_lab, dedup_lab,
  erasure_lab, active, mount, Page, Task, initial, choose, Event, choose_exp, in_failure, in_quorum,
  in_dedup, in_erasure, handle, run, run_inside,
}
use cloud_weave.Pages.Experiments.Tasks.{
  own, Before, own-IsOrdered, own-set_all, set_each, From, set_all-IsOrdered, set_all-Before,
  Before-next, own-next,
}

-- What can be done: the four tabs, and what the simulator shows that is mounted.
pub data Offered : Lab → Event → Type 0 where
  tab : {lab : Lab} (exp : Experiment) → Offered lab (choose_exp exp)
  failure_click :
      {s : Recovery.Simulator} {e : Recovery.Event}
      → Memᴰ e (clicks (RecoveryView.view s))
      → Offered (failure_lab s) (in_failure e)
  quorum_event :
      {s : Quorum.Quorum} {e : Quorum.Event} → Laws.Offered e → Offered (quorum_lab s) (in_quorum e)
  dedup_event :
      {s : Deduplication.Lab} (e : Deduplication.Event) → Offered (dedup_lab s) (in_dedup e)
  erasure_event : {s : Erasure.Lab} (e : Erasure.Event) → Offered (erasure_lab s) (in_erasure e)

pub data Reachable : World Page Task → Type 0 where
  open_page : (now : ℕ) → Reachable (record { state = initial; now = now; queue = [] })
  event :
      {w : World Page Task} {e : Event}
      → Reachable w
      → Offered w.state.lab e
      → Reachable (handle e w)
  timer : {w : World Page Task} → Reachable w → Reachable (fire run w)
  -- Time passes, but not beyond the first task that is due.
  wait :
      {w : World Page Task} (later : ℕ)
      → Reachable w
      → IsOrdered later w.queue
      → w.now ≤ later
      → Reachable (record w { now = later })

-- A state that the simulator reaches on its own, with its own timers only.
abbrev pub Alone : Lab → ℕ → List (ℕ × Recovery.Task) → Type 0
Alone (failure_lab s) now q = Cycle.Reachable (record { state = s; now = now; queue = q })
Alone (quorum_lab s) now q = Laws.Reachable s
Alone (dedup_lab s) now q = Store.Reachable s
Alone (erasure_lab s) now q = Counts.Reachable s

abbrev pub RunsAlone : World Page Task → Type 0
RunsAlone w = Alone w.state.lab w.now (own w.state.mounts w.queue)

pub record IsKept (w : World Page Task) : Type 0 where
  pub alone : RunsAlone w
  pub ordered : IsOrdered w.now w.queue
  pub tagged : Before w.state.mounts w.queue

mount-Alone : (exp : Experiment) (now : ℕ) → Alone (mount exp) now []
mount-Alone failure now = Cycle.open_page now
mount-Alone quorum now = Laws.start
mount-Alone dedup now = Store.start
mount-Alone erasure now = Counts.start

choose-IsKept :
    (exp : Experiment) (w : World Page Task) → IsKept w → IsKept (handle (choose_exp exp) w)
unfolding handle choose
choose-IsKept exp w i = elim (Bool-cases (is_exp exp (active w.state.lab))) [
  | inl e ↦ rw e (record { alone = i.alone; ordered = i.ordered; tagged = i.tagged })
  | inr e ↦ rw e (record {
    alone =
        subst (λ q. Alone (mount exp) w.now q) (sym (own-next w.state.mounts w.queue i.tagged))
          (mount-Alone exp w.now);
    ordered = i.ordered;
    tagged = Before-next w.state.mounts w.queue i.tagged;
  })
]

-- The timers that an event of the failure simulator sets.
abbrev timers_of : Recovery.Event → ℕ → Recovery.Simulator → List (ℕ × Recovery.Task)
timers_of e now s = (Recovery.handle e (record { state = s; now = now; queue = [] })).queue

timers_of-From :
    (e : Recovery.Event) (now : ℕ) (s : Recovery.Simulator) → From now (timers_of e now s)
unfolding Recovery.handle
timers_of-From Recovery.simulate_failure now s = ground arith
timers_of-From Recovery.reset now s = tt

-- Setting them one after the other is what the event does to a queue.
handle-set_each :
    (e : Recovery.Event) (now : ℕ) (s : Recovery.Simulator) (q : List (ℕ × Recovery.Task))
    → record {
      state = (Recovery.handle e (record { state = s; now = now; queue = [] })).state;
      now = now;
      queue = set_each (timers_of e now s) q;
    }
      ≡ Recovery.handle e (record { state = s; now = now; queue = q })
unfolding Recovery.handle
handle-set_each Recovery.simulate_failure now s q = ground arith
handle-set_each Recovery.reset now s q = refl

failure-IsKept :
    (e : Recovery.Event) (w : World Page Task) (s : Recovery.Simulator)
    → w.state.lab ≡ failure_lab s
    → Memᴰ e (clicks (RecoveryView.view s))
    → IsKept w
    → IsKept (handle (in_failure e) w)
unfolding handle
failure-IsKept e w s l m i =
    let m_ = w.state.mounts in
    let now = w.now in
    let ts = timers_of e now s in
    let from = timers_of-From e now s in
    let alone : Cycle.Reachable (record { state = s; now = now; queue = own m_ w.queue }) =
      subst (λ x. Alone x now (own m_ w.queue)) l i.alone in
    rw l (record {
      alone =
          subst
            (λ q. Cycle.Reachable (record {
              state = (Recovery.handle e (record { state = s; now = now; queue = [] })).state;
              now = now;
              queue = q;
            }))
            (sym (own-set_all m_ now ts w.queue from i.ordered))
            (subst (λ v. Cycle.Reachable v) (sym (handle-set_each e now s (own m_ w.queue)))
              (Cycle.click alone m));
      ordered = set_all-IsOrdered m_ now ts w.queue from i.ordered;
      tagged = set_all-Before m_ ts w.queue i.tagged;
    })

handle-IsKept :
    (w : World Page Task) {lab : Lab} {e : Event}
    → w.state.lab ≡ lab
    → Offered lab e
    → IsKept w
    → IsKept (handle e w)
unfolding handle
handle-IsKept w l (tab exp) i = choose-IsKept exp w i
handle-IsKept w l (failure_click {s} {e} m) i = failure-IsKept e w s l m i
handle-IsKept w l (quorum_event o) i =
    let before = subst (λ x. Alone x w.now (own w.state.mounts w.queue)) l i.alone in
    rw l (record { alone = Laws.event before o; ordered = i.ordered; tagged = i.tagged })
handle-IsKept w l (dedup_event e) i =
    let before = subst (λ x. Alone x w.now (own w.state.mounts w.queue)) l i.alone in
    rw l (record { alone = Store.event before e; ordered = i.ordered; tagged = i.tagged })
handle-IsKept w l (erasure_event e) i =
    let before = subst (λ x. Alone x w.now (own w.state.mounts w.queue)) l i.alone in
    rw l (record { alone = Counts.event before e; ordered = i.ordered; tagged = i.tagged })

-- Time passes for a simulator.
wait-Alone :
    (lab : Lab) (now later : ℕ) (q : List (ℕ × Recovery.Task))
    → now ≤ later
    → IsOrdered later q
    → Alone lab now q
    → Alone lab later q
wait-Alone (failure_lab s) now later q h o a = Cycle.wait later a o h
wait-Alone (quorum_lab s) now later q h o a = a
wait-Alone (dedup_lab s) now later q h o a = a
wait-Alone (erasure_lab s) now later q h o a = a

-- The first of its own timers is run.
run-Alone :
    (lab : Lab) (now due : ℕ) (t : Recovery.Task) (q : List (ℕ × Recovery.Task))
    → Alone lab now ((due, t) ∷ q)
    → Alone (run_inside t lab) due q
run-Alone (failure_lab s) now due t q a = Cycle.timer a
run-Alone (quorum_lab s) now due t q a = a
run-Alone (dedup_lab s) now due t q a = a
run-Alone (erasure_lab s) now due t q a = a

fire-IsKept :
    (w : World Page Task) (q : List (ℕ × Task)) → w.queue ≡ q → IsKept w → IsKept (fire run w)
unfolding run
fire-IsKept w [] e i =
    let a = subst (λ x. Alone w.state.lab w.now (own w.state.mounts x)) e i.alone in
    rw e (record { alone = a; ordered = tt; tagged = tt })
fire-IsKept w ((due, (k, t)) ∷ q) e i =
    let m = w.state.mounts in
    let a = subst (λ x. Alone w.state.lab w.now (own m x)) e i.alone in
    let o = subst (λ x. IsOrdered w.now x) e i.ordered in
    let b = subst (λ x. Before m x) e i.tagged in
    rw e (elim (Bool-cases (k == m)) [
      | inl h ↦ rw h (record {
        alone =
            run-Alone w.state.lab w.now due t (own m q) (
              subst (λ c. Alone w.state.lab w.now (if c then (due, t) ∷ own m q else own m q)) h a);
        ordered = o.1;
        tagged = b.1;
      })
      | inr h ↦ rw h (record {
        alone =
            wait-Alone w.state.lab w.now due (own m q) o.0 (own-IsOrdered m due q o.1) (
              subst (λ c. Alone w.state.lab w.now (if c then (due, t) ∷ own m q else own m q)) h a);
        ordered = o.1;
        tagged = b.1;
      })
    ])

pub Reachable-IsKept : {w : World Page Task} → Reachable w → IsKept w
Reachable-IsKept (open_page now) = record { alone = Cycle.open_page now; ordered = tt; tagged = tt }
Reachable-IsKept (event {w} r o) = handle-IsKept w refl o (Reachable-IsKept r)
Reachable-IsKept (timer {w} r) = fire-IsKept w w.queue refl (Reachable-IsKept r)
Reachable-IsKept (wait {w} later r o h) =
    let i = Reachable-IsKept r in
    record {
      alone =
          wait-Alone w.state.lab w.now later (own w.state.mounts w.queue) h
            (own-IsOrdered w.state.mounts later w.queue o) i.alone;
      ordered = o;
      tagged = i.tagged;
    }

-- Whatever is clicked on the page and whichever timers run, those of simulators that are gone included,
-- the simulator that is mounted is in a state that it reaches on its own, with the timers in the queue
-- that it has set since it was mounted, so that what holds of its reachable states holds on the page.
pub Reachable-RunsAlone : {w : World Page Task} → Reachable w → RunsAlone w
Reachable-RunsAlone r = (Reachable-IsKept r).alone
