-- ===== src/Pages/Experiments.antt =====
-- documentation/components/experiments/ExperimentsView.tsx: the page that mounts one of four simulators. A
-- simulator that is chosen takes the place of the one shown, in its first state. The timers of one that is
-- gone stay in the queue, each with the number of the mount that set it, and run without effect: the state
-- they set is that of a component which is not mounted any more.
pub mod Tasks
pub mod Runs
pub mod Left
mod Tests
use cloud_weave.Prelude.{
  ℕ, String, Bool, true, false, List, ◌+◌, ◌==◌, [], ◌∷◌, cat, same, if◌then◌else◌,
}
use cloud_weave.Html.{Node, prop, on, nothing, say, element, ◌&◌, relabel}
use cloud_weave.EventLoop.{World, change, schedule}
use cloud_weave.Playground.Recovery
use cloud_weave.Playground.Recovery.View as RecoveryView
use cloud_weave.Playground.Quorum
use cloud_weave.Playground.Quorum.View as QuorumView
use cloud_weave.Playground.Deduplication
use cloud_weave.Playground.Deduplication.View as DeduplicationView
use cloud_weave.Playground.Erasure
use cloud_weave.Playground.Erasure.View as ErasureView

pub data Experiment : Type 0 where
  failure quorum dedup erasure : Experiment

abbrev pub exp_name : Experiment → String
exp_name failure = "failure"
exp_name quorum = "quorum"
exp_name dedup = "dedup"
exp_name erasure = "erasure"

-- `a === b`
abbrev pub is_exp : Experiment → Experiment → Bool
is_exp a b = same (exp_name a) (exp_name b)

-- The state of the simulator that is mounted.
pub data Lab : Type 0 where
  failure_lab : Recovery.Simulator → Lab
  quorum_lab : Quorum.Quorum → Lab
  dedup_lab : Deduplication.Lab → Lab
  erasure_lab : Erasure.Lab → Lab

-- activeExp, which says what is mounted.
abbrev pub active : Lab → Experiment
active (failure_lab s) = failure
active (quorum_lab s) = quorum
active (dedup_lab s) = dedup
active (erasure_lab s) = erasure

abbrev pub mount : Experiment → Lab
mount failure = failure_lab Recovery.initial
mount quorum = quorum_lab Quorum.initial
mount dedup = dedup_lab Deduplication.initial
mount erasure = erasure_lab Erasure.initial

-- What is mounted, and how many simulators were mounted before it.
pub record Page : Type 0 where
  pub lab : Lab
  pub mounts : ℕ

abbrev pub initial : Page
initial = record { lab = mount failure; mounts = 0 }

-- A timer of the failure simulator, with the number of its mount.
abbrev pub Task : Type 0
Task = ℕ × Recovery.Task

-- setActiveExp: the same value leaves what is mounted.
unfoldable pub choose : Experiment → Page → Page
choose exp p =
    if is_exp exp (active p.lab) then p else record { lab = mount exp; mounts = p.mounts + 1 }

pub data Event : Type 0 where
  choose_exp : Experiment → Event
  in_failure : Recovery.Event → Event
  in_quorum : Quorum.Event → Event
  in_dedup : Deduplication.Event → Event
  in_erasure : Erasure.Event → Event

-- The simulator behind an event of its own at a time, and the timers that it sets.
unfoldable pub inside : Event → ℕ → Lab → Lab × List (ℕ × Recovery.Task)
inside (in_failure e) now (failure_lab s) =
    let after = Recovery.handle e (record { state = s; now = now; queue = [] }) in
    (failure_lab after.state, after.queue)
inside (in_quorum e) now (quorum_lab s) = (quorum_lab (Quorum.update e s), [])
inside (in_dedup e) now (dedup_lab s) = (dedup_lab (Deduplication.update e s), [])
inside (in_erasure e) now (erasure_lab s) = (erasure_lab (Erasure.update e s), [])
inside _ now lab = (lab, [])

-- The queue of the page with the timers that mount `m` has set.
abbrev pub set_all : ℕ → List (ℕ × Recovery.Task) → List (ℕ × Task) → List (ℕ × Task)
set_all m [] q = q
set_all m ((due, t) ∷ ts) q = set_all m ts (schedule due (m, t) q)

unfoldable pub pass_on : Event → World Page Task → World Page Task
unfolding inside
pass_on e w =
    let (lab, set) = inside e w.now w.state.lab in
    record w { state = record w.state { lab = lab }; queue = set_all w.state.mounts set w.queue }

unfoldable pub handle : Event → World Page Task → World Page Task
unfolding choose pass_on
handle (choose_exp exp) w = change (choose exp) w
handle (in_failure e) w = pass_on (in_failure e) w
handle (in_quorum e) w = pass_on (in_quorum e) w
handle (in_dedup e) w = pass_on (in_dedup e) w
handle (in_erasure e) w = pass_on (in_erasure e) w

abbrev pub run_inside : Recovery.Task → Lab → Lab
run_inside t (failure_lab s) = failure_lab (Recovery.run t s)
run_inside t (quorum_lab s) = quorum_lab s
run_inside t (dedup_lab s) = dedup_lab s
run_inside t (erasure_lab s) = erasure_lab s

-- A timer that is due changes the simulator that set it, if that is still mounted.
unfoldable pub run : Task → Page → Page
run (m, t) p = if m == p.mounts then record p { lab = run_inside t p.lab } else p

unfoldable pub header : Lab → Node Event
header lab =
    element "div"
      (prop "className" "p-6 rounded-2xl border border-[#CBD5E1] bg-white shadow-xs" ∷ [])
      ((element "div" (prop "className" "flex items-center gap-2" ∷ []) (
          (element "span"
            (prop "className"
                "rounded-md bg-[#CAF0F8] px-2.5 py-1 text-[10px] font-mono font-bold text-[#0077B6] uppercase"
              ∷ [])
            (say "Interactive Experiments Lab"))
          & (element "span" (prop "className" "text-xs font-mono text-[#64748B]" ∷ [])
              (say "Real-Time Simulations"))))
        & (element "h2"
            (prop "className" "text-2xl font-bold tracking-tight text-[#03045E] mt-2" ∷ [])
            (say "Distributed Systems Experiments"))
        & (element "p" (prop "className" "text-xs sm:text-sm text-[#64748B] mt-1 max-w-2xl" ∷ []) (
            say
              "Conduct live interactive experiments with node failures, quorum overlap gaps, FastCDC rolling hash shifts, and Reed-Solomon parity reconstruction."))
        & (element "div"
            (prop "className"
                "flex flex-wrap gap-2 mt-4 pt-3 border-t border-[#E2E8F0] font-mono text-xs"
              ∷ [])
            ((element "button"
                (on "onClick" (choose_exp failure)
                  ∷ prop "className" (
                      cat
                        "flex items-center gap-1.5 px-3 py-1.5 rounded-lg font-semibold transition-all "
                        ((if is_exp (active lab) failure
                          then "bg-[#0077B6] text-white shadow-2xs"
                          else "bg-[#F8FAFC] text-[#475569] border border-[#CBD5E1] hover:bg-[#CAF0F8]")))
                  ∷ [])
                ((element "Activity" (prop "className" "w-3.5 h-3.5" ∷ []) nothing)
                  & (element "span" [] (say "1. Node Failure & Recovery"))))
              & (element "button"
                  (on "onClick" (choose_exp quorum)
                    ∷ prop "className" (
                        cat
                          "flex items-center gap-1.5 px-3 py-1.5 rounded-lg font-semibold transition-all "
                          ((if is_exp (active lab) quorum
                            then "bg-[#0077B6] text-white shadow-2xs"
                            else "bg-[#F8FAFC] text-[#475569] border border-[#CBD5E1] hover:bg-[#CAF0F8]")))
                    ∷ [])
                  ((element "ShieldCheck" (prop "className" "w-3.5 h-3.5" ∷ []) nothing)
                    & (element "span" [] (say "2. Quorum Tuning Lab"))))
              & (element "button"
                  (on "onClick" (choose_exp dedup)
                    ∷ prop "className" (
                        cat
                          "flex items-center gap-1.5 px-3 py-1.5 rounded-lg font-semibold transition-all "
                          ((if is_exp (active lab) dedup
                            then "bg-[#0077B6] text-white shadow-2xs"
                            else "bg-[#F8FAFC] text-[#475569] border border-[#CBD5E1] hover:bg-[#CAF0F8]")))
                    ∷ [])
                  ((element "Layers" (prop "className" "w-3.5 h-3.5" ∷ []) nothing)
                    & (element "span" [] (say "3. FastCDC Deduplication"))))
              & (element "button"
                  (on "onClick" (choose_exp erasure)
                    ∷ prop "className" (
                        cat
                          "flex items-center gap-1.5 px-3 py-1.5 rounded-lg font-semibold transition-all "
                          ((if is_exp (active lab) erasure
                            then "bg-[#0077B6] text-white shadow-2xs"
                            else "bg-[#F8FAFC] text-[#475569] border border-[#CBD5E1] hover:bg-[#CAF0F8]")))
                    ∷ [])
                  ((element "Cpu" (prop "className" "w-3.5 h-3.5" ∷ []) nothing)
                    & (element "span" [] (say "4. Erasure Coding Lab")))))))

unfoldable pub body : Lab → Node Event
body (failure_lab s) = relabel in_failure (RecoveryView.view s)
body (quorum_lab s) = relabel in_quorum (QuorumView.view s)
body (dedup_lab s) = relabel in_dedup (DeduplicationView.view s)
body (erasure_lab s) = relabel in_erasure (ErasureView.view s)

unfoldable pub view : Page → Node Event
unfolding header body
view p =
    element "div" (prop "className" "space-y-6" ∷ [])
      ((header p.lab) & (element "div" [] (body p.lab)))
