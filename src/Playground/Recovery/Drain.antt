-- ===== src/Playground/Recovery/Drain.antt =====
-- FailureRecoverySimulator.tsx: where the component comes to rest once all its timers have run.
use cloud_weave.Prelude.{
  ℕ, zero, suc, ◌+◌, ◌≤◌, List, [], ◌∷◌, ◌++◌, ◌≡◌, ◌≢◌, refl, sym, subst, length, arith,
}
use cloud_weave.EventLoop.{World, fire, schedule, IsOrdered}
use cloud_weave.Playground.Recovery.{
  Stage, Simulator, Task, detect, repair, recover, run, Event, simulate_failure, reset, handle,
}
use cloud_weave.Playground.Recovery.Cycle.{
  Reachable, open_page, click, timer, wait, timers_in_order,
}

abbrev Queue : Type 0
Queue = List (ℕ × Task)

-- All that is in the queue is due at `limit` or before.
abbrev DueBy : ℕ → Queue → Type 0
DueBy limit [] = Unit
DueBy limit ((due, t) ∷ q) = (due ≤ limit) × DueBy limit q

-- The last task of the queue, if it has one, is the one that recovers the cluster.
abbrev pub EndsInRecover : Queue → Type 0
EndsInRecover [] = Unit
EndsInRecover ((due, t) ∷ []) = t ≡ recover
EndsInRecover (x ∷ y ∷ q) = EndsInRecover (y ∷ q)

DueBy-schedule :
    (limit due : ℕ) (t : Task) (q : Queue)
    → due ≤ limit
    → DueBy limit q
    → DueBy limit (schedule due t q)
DueBy-schedule limit due t [] h b = (h, tt)
DueBy-schedule limit due t ((d, u) ∷ q) h b = ground (arith, DueBy-schedule limit due t q)

DueBy-le : (limit more : ℕ) (q : Queue) → limit ≤ more → DueBy limit q → DueBy more q
DueBy-le limit more [] h b = tt
DueBy-le limit more ((d, u) ∷ q) h b = (omega (arith, b.0), DueBy-le limit more q h b.1)

schedule-last :
    (due : ℕ) (t : Task) (q : Queue) → DueBy due q → schedule due t q ≡ q ++ ((due, t) ∷ [])
schedule-last due t [] b = refl
schedule-last due t ((d, u) ∷ q) b = ground (arith, schedule-last due t q)

EndsInRecover-append : (q : Queue) (due : ℕ) → EndsInRecover (q ++ ((due, recover) ∷ []))
EndsInRecover-append [] due = refl
EndsInRecover-append (x ∷ []) due = refl
EndsInRecover-append (x ∷ y ∷ q) due = EndsInRecover-append (y ∷ q) due

EndsInRecover-tail : (x : ℕ × Task) (q : Queue) → EndsInRecover (x ∷ q) → EndsInRecover q
EndsInRecover-tail x [] e = tt
EndsInRecover-tail x (y ∷ q) e = e

-- What every sequence of clicks and timers keeps of the queue.
record InFlight (w : World Simulator Task) : Type 0 where
  soon : DueBy (w.now + 5000) w.queue
  ends : EndsInRecover w.queue

handle-InFlight : (e : Event) (w : World Simulator Task) → InFlight w → InFlight (handle e w)
unfolding handle
handle-InFlight reset w i = record { soon = i.soon; ends = i.ends }
handle-InFlight simulate_failure w i =
    let two = schedule (w.now + 3200) repair (schedule (w.now + 1500) detect w.queue) in
    let early : DueBy (w.now + 5000) two =
      DueBy-schedule (w.now + 5000) (w.now + 3200) repair _ (omega arith)
        (DueBy-schedule (w.now + 5000) (w.now + 1500) detect w.queue (omega arith) i.soon) in
    record {
      soon = DueBy-schedule (w.now + 5000) (w.now + 5000) recover two (omega arith) early;
      ends =
          subst EndsInRecover (sym (schedule-last (w.now + 5000) recover two early))
            (EndsInRecover-append two (w.now + 5000));
    }

fire-InFlight :
    (w : World Simulator Task) (q : Queue)
    → w.queue ≡ q
    → IsOrdered w.now w.queue
    → InFlight w
    → InFlight (fire run w)
fire-InFlight w [] e o i = rw e (record { soon = rw e at i.soon; ends = rw e at i.ends })
fire-InFlight w ((due, t) ∷ q) e o i =
    let order = rw e at o in
    rw e (record {
      soon = DueBy-le (w.now + 5000) (due + 5000) q (omega (arith, order.0)) ((rw e at i.soon).1);
      ends = EndsInRecover-tail (due, t) q (rw e at i.ends);
    })

Reachable-InFlight : {w : World Simulator Task} → Reachable w → InFlight w
Reachable-InFlight (open_page now) = record { soon = tt; ends = tt }
Reachable-InFlight (click {w} {e} r m) = handle-InFlight e w (Reachable-InFlight r)
Reachable-InFlight (timer {w} r) =
    fire-InFlight w w.queue refl (timers_in_order r) (Reachable-InFlight r)
Reachable-InFlight (wait {w} later r o h) =
    let i = Reachable-InFlight r in
    record {
      soon = DueBy-le (w.now + 5000) (later + 5000) w.queue (omega (arith, h)) i.soon;
      ends = i.ends;
    }

-- The loop runs `n` tasks.
abbrev pub fire_all : ℕ → World Simulator Task → World Simulator Task
fire_all zero w = w
fire_all (suc n) w = fire_all n (fire run w)

drained :
    (q : Queue) (w : World Simulator Task)
    → w.queue ≡ q
    → EndsInRecover q
    → ((fire_all (length q) w).queue ≡ [])
      × (q ≢ [] → (fire_all (length q) w).state.stage ≡ Stage.recovered)
drained [] w e h = (e, λ n. absurd (n refl))
drained ((due, t) ∷ []) w e h = rw e (refl, λ n. rw h (unfold run in refl))
drained ((due, t) ∷ y ∷ q) w e h =
    let rest = drained (y ∷ q) (fire run w) (rw e refl) h in (rest.0, λ n. rest.1 (λ m. cc))

-- From every reachable world, however failures and resets have interleaved, running the timers that
-- are set leaves none, and if there was one the component ends in the recovered stage.
pub drained-Reachable :
    {w : World Simulator Task}
    → Reachable w
    → ((fire_all (length w.queue) w).queue ≡ [])
      × (w.queue ≢ [] → (fire_all (length w.queue) w).state.stage ≡ Stage.recovered)
drained-Reachable {w} r = drained w.queue w refl (Reachable-InFlight r).ends
