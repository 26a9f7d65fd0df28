-- ===== src/EventLoop/Effect.antt =====
-- A `useEffect` that keeps one timer: when one of the values that it depends on has changed, the
-- timer is cleared, and another is set if the new state asks for one.
use cloud_weave.Prelude.{ℕ, ◌+◌, Bool, Option, none, some, if◌then◌else◌}

-- A component's state with the clock and the time its timer is due, if it has one.
pub record Ticking (S : Type 0) : Type 0 where
  pub state : S
  pub now : ℕ
  pub timer : Option ℕ

-- How an effect depends on the state: whether the values that it depends on are the same in two
-- states, and after how many milliseconds the timer of a state is due.
pub record Effect (S : Type 0) : Type 0 where
  pub same_deps : S → S → Bool
  pub delay : S → Option ℕ

module _ {S : Type 0} (e : Effect S) where
  abbrev pub due_after : ℕ → Option ℕ → Option ℕ
  due_after now none = none
  due_after now (some ms) = some (now + ms)

  -- What follows a render: the effect runs if a value that it depends on has changed.
  abbrev pub settle : S → Ticking S → Ticking S
  settle old w =
      if e.same_deps old w.state then w else record w { timer = due_after w.now (e.delay w.state) }

  -- A change of the state by a handler.
  abbrev pub act : (S → S) → Ticking S → Ticking S
  act f w = settle w.state (record w { state = f w.state })

  -- The loop waits until the timer is due, and its callback changes the state.
  abbrev pub tick : (S → S) → Ticking S → Ticking S
  tick f w = elim w.timer [
    | none ↦ w
    | some due ↦ settle w.state (record { state = f w.state; now = due; timer = none })
  ]

  -- The component is mounted at a time.
  abbrev pub mount : S → ℕ → Ticking S
  mount s now = record { state = s; now = now; timer = due_after now (e.delay s) }
