-- ===== src/Pages/Experiments/Tasks.antt =====
-- The queue of ExperimentsView.tsx, which holds the timers of simulators that are gone too, and the
-- timers in it of the simulator that is mounted.
use cloud_weave.Prelude.{
  ℕ, ◌+◌, ◌≤◌, false, List, [], ◌∷◌, if◌then◌else◌, ◌==◌, leb, ◌≡◌, refl, ap, ◌∙◌, arith,
}
use cloud_weave.EventLoop.{schedule, IsOrdered, schedule-IsOrdered}
use cloud_weave.Playground.Recovery
use cloud_weave.Pages.Experiments.{Task, set_all}

-- The timers that mount `m` has set.
abbrev pub own : ℕ → List (ℕ × Task) → List (ℕ × Recovery.Task)
own m [] = []
own m ((due, (k, t)) ∷ q) = if k == m then (due, t) ∷ own m q else own m q

-- No mount behind `m` has set a timer.
abbrev pub Before : ℕ → List (ℕ × Task) → Type 0
Before m [] = Unit
Before m ((due, (k, t)) ∷ q) = (k ≤ m) × Before m q

pub IsOrdered-mono :
    {T : Type 0} (low high : ℕ) (q : List (ℕ × T)) → low ≤ high → IsOrdered high q → IsOrdered low q
IsOrdered-mono low high [] h o = tt
IsOrdered-mono low high ((d, t) ∷ q) h o = (omega (arith, h, o.0), o.1)

pub own-IsOrdered : (m low : ℕ) (q : List (ℕ × Task)) → IsOrdered low q → IsOrdered low (own m q)
own-IsOrdered m low [] o = tt
own-IsOrdered m low ((d, (k, t)) ∷ q) o =
    let rest = own-IsOrdered m d q o.1 in
    let skipped = IsOrdered-mono low d (own m q) o.0 rest in ground arith

schedule_front :
    {T : Type 0} (due d : ℕ) (t : T) (q : List (ℕ × T))
    → leb d due ≡ false
    → IsOrdered d q
    → schedule due t q ≡ (due, t) ∷ q
schedule_front due d t [] h o = refl
schedule_front due d t ((e, u) ∷ q) h o = ground arith

pub own-schedule :
    (m due low : ℕ) (t : Recovery.Task) (q : List (ℕ × Task))
    → IsOrdered low q
    → own m (schedule due (m, t) q) ≡ schedule due t (own m q)
own-schedule m due low t [] o = ground arith
own-schedule m due low t ((d, (k, u)) ∷ q) o =
    let later = own-schedule m due d t q o.1 in
    let front : leb d due ≡ false → schedule due t (own m q) ≡ (due, t) ∷ own m q =
      λ h. schedule_front due d t (own m q) h (own-IsOrdered m d q o.1) in
    ground arith

-- Timers that are set one after the other.
abbrev pub set_each : List (ℕ × Recovery.Task) → List (ℕ × Recovery.Task) → List (ℕ × Recovery.Task)
set_each [] q = q
set_each ((due, t) ∷ ts) q = set_each ts (schedule due t q)

-- All of them are set for `now` or later.
abbrev pub From : ℕ → List (ℕ × Recovery.Task) → Type 0
From now [] = Unit
From now ((due, t) ∷ ts) = (now ≤ due) × From now ts

pub own-set_all :
    (m now : ℕ) (ts : List (ℕ × Recovery.Task)) (q : List (ℕ × Task))
    → From now ts
    → IsOrdered now q
    → own m (set_all m ts q) ≡ set_each ts (own m q)
own-set_all m now [] q f o = refl
own-set_all m now ((due, t) ∷ ts) q f o =
    own-set_all m now ts (schedule due (m, t) q) f.1 (schedule-IsOrdered now due (m, t) q f.0 o)
    ∙ ap (set_each ts) (own-schedule m due now t q o)

pub set_all-IsOrdered :
    (m now : ℕ) (ts : List (ℕ × Recovery.Task)) (q : List (ℕ × Task))
    → From now ts
    → IsOrdered now q
    → IsOrdered now (set_all m ts q)
set_all-IsOrdered m now [] q f o = o
set_all-IsOrdered m now ((due, t) ∷ ts) q f o =
    set_all-IsOrdered m now ts (schedule due (m, t) q) f.1
      (schedule-IsOrdered now due (m, t) q f.0 o)

schedule-Before :
    (m due : ℕ) (t : Recovery.Task) (q : List (ℕ × Task))
    → Before m q
    → Before m (schedule due (m, t) q)
schedule-Before m due t [] b = (omega arith, tt)
schedule-Before m due t ((d, (k, u)) ∷ q) b =
    let rest = schedule-Before m due t q b.1 in ground arith

pub set_all-Before :
    (m : ℕ) (ts : List (ℕ × Recovery.Task)) (q : List (ℕ × Task))
    → Before m q
    → Before m (set_all m ts q)
set_all-Before m [] q b = b
set_all-Before m ((due, t) ∷ ts) q b =
    set_all-Before m ts (schedule due (m, t) q) (schedule-Before m due t q b)

pub Before-next : (m : ℕ) (q : List (ℕ × Task)) → Before m q → Before (m + 1) q
Before-next m [] b = tt
Before-next m ((d, (k, t)) ∷ q) b = (omega (arith, b.0), Before-next m q b.1)

-- The next mount has no timers.
pub own-next : (m : ℕ) (q : List (ℕ × Task)) → Before m q → own (m + 1) q ≡ []
own-next m [] b = refl
own-next m ((d, (k, t)) ∷ q) b = let rest = own-next m q b.1 in ground arith
