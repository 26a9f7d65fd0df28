-- ===== src/EventLoop.antt =====
-- The browser's timers as the components use them: setTimeout(task, ms) puts a task in a queue
-- ordered by the time it is due, tasks due at one time in the order in which they were set, and the
-- loop runs the first one. No component keeps the handle of a timer, so nothing leaves the queue
-- unrun.
pub mod Effect
pub mod Clipboard
use cloud_weave.Prelude.{ℕ, ◌+◌, ◌≤◌, List, [], ◌∷◌, if◌then◌else◌, leb, arith, ◌≢◌}

module _ {T : Type 0} where
  -- The queue with `t`, due at time `due`, behind all that is due no later.
  abbrev pub schedule : ℕ → T → List (ℕ × T) → List (ℕ × T)
  schedule due t [] = (due, t) ∷ []
  schedule due t ((d, u) ∷ q) =
      if leb d due then (d, u) ∷ schedule due t q else (due, t) ∷ (d, u) ∷ q

  -- Every task in the queue is due at `d` or later, and the queue is in order.
  abbrev pub IsOrdered : ℕ → List (ℕ × T) → Type 0
  IsOrdered d [] = Unit
  IsOrdered d ((e, t) ∷ q) = (d ≤ e) × IsOrdered e q

  pub schedule-IsOrdered :
      (low due : ℕ) (t : T) (q : List (ℕ × T))
      → low ≤ due
      → IsOrdered low q
      → IsOrdered low (schedule due t q)
  schedule-IsOrdered low due t [] h o = (h, tt)
  schedule-IsOrdered low due t ((d, u) ∷ q) h o = ground (arith, schedule-IsOrdered d due t q)

  pub schedule-ne-nil : (due : ℕ) (t : T) (q : List (ℕ × T)) → schedule due t q ≢ []
  schedule-ne-nil due t [] = λ e. cc
  schedule-ne-nil due t ((d, u) ∷ q) = λ e. ground arith

-- Every task in a queue is due by a time.
abbrev pub DueBy : {T : Type 0} → ℕ → List (ℕ × T) → Type 0
DueBy limit [] = Unit
DueBy limit ((due, t) ∷ q) = (due ≤ limit) × DueBy limit q

pub DueBy-schedule :
    {T : Type 0} (limit due : ℕ) (t : T) (q : List (ℕ × T))
    → due ≤ limit
    → DueBy limit q
    → DueBy limit (schedule due t q)
DueBy-schedule limit due t [] h s = (h, tt)
DueBy-schedule limit due t ((d, u) ∷ q) h s = ground (arith, DueBy-schedule limit due t q)

pub DueBy-mono :
    {T : Type 0} (low high : ℕ) (q : List (ℕ × T)) → low ≤ high → DueBy low q → DueBy high q
DueBy-mono low high [] h s = tt
DueBy-mono low high ((d, u) ∷ q) h s = (omega (arith, s.0), DueBy-mono low high q h s.1)

-- The queue of a component that sets timers of at most `span`: in order, and the last one due before
-- that time has passed.
abbrev pub IsTimely : {T : Type 0} → ℕ → ℕ → List (ℕ × T) → Type 0
IsTimely span now q = IsOrdered now q × DueBy (now + span) q

pub schedule-IsTimely :
    {T : Type 0} (span now : ℕ) (t : T) (q : List (ℕ × T))
    → IsTimely span now q
    → IsTimely span now (schedule (now + span) t q)
schedule-IsTimely span now t q h = (
  schedule-IsOrdered now (now + span) t q (omega arith) h.0,
  DueBy-schedule (now + span) (now + span) t q (omega arith) h.1,
)

-- It stays so while time passes, though not beyond the first task.
pub wait-IsTimely :
    {T : Type 0} (span now later : ℕ) (q : List (ℕ × T))
    → now ≤ later
    → IsOrdered later q
    → IsTimely span now q
    → IsTimely span later q
wait-IsTimely span now later q h o k =
    (o, DueBy-mono (now + span) (later + span) q (omega (arith, h)) k.1)

-- A component's state with the clock and the tasks that are still to run.
pub record World (S T : Type 0) : Type 0 where
  pub state : S
  pub now : ℕ
  pub queue : List (ℕ × T)

module _ {S T : Type 0} where
  -- setTimeout(() => t, ms)
  abbrev pub set_timeout : T → ℕ → World S T → World S T
  set_timeout t ms w = record w { queue = schedule (w.now + ms) t w.queue }

  -- setX(f), a change of the component's state by an event handler.
  abbrev pub change : (S → S) → World S T → World S T
  change f w = record w { state = f w.state }

  abbrev fire_first : (T → S → S) → World S T → List (ℕ × T) → World S T
  fire_first run w [] = w
  fire_first run w ((due, t) ∷ q) = record { state = run t w.state; now = due; queue = q }

  -- The loop waits until the first task is due and runs it.
  abbrev pub fire : (T → S → S) → World S T → World S T
  fire run w = fire_first run w w.queue
