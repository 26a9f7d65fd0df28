-- ===== src/Canvas/System/Playback.antt =====
-- MasterSystemCanvas.tsx: the playback, with the timer that its effect keeps.
use cloud_weave.Prelude.{
  ℕ, ◌+◌, ◌/◌, ◌≤◌, String, true, false, Option, none, some, ◌≡◌, refl, sym, subst, inl, inr, ◌==◌,
  arith, Bool-cases, Option-cases,
}
use cloud_weave.EventLoop.Effect.{Ticking, mount, due_after, settle}
use cloud_weave.Canvas.System.{
  Player, initial, following, Event, go_to, select_chunk, inspect, toggle_playing, next_step, reset,
  set_speed, update, advance, playback, handle, elapse,
}

-- The events that what is shown can raise.
pub data Offered : Event → Type 0 where
  stage : (n : ℕ) → 1 ≤ n → n ≤ 5 → Offered (go_to n)
  chunk : (id : String) → Offered (select_chunk id)
  node : (id : ℕ) → Offered (inspect id)
  play : Offered toggle_playing
  next : Offered next_step
  rewind : Offered reset
  slide : (v : ℕ) → 1 ≤ v → v ≤ 4 → Offered (set_speed v)

-- A timer is due at `later` or after it.
abbrev pub NotBefore : ℕ → Option ℕ → Type 0
NotBefore later none = Unit
NotBefore later (some due) = later ≤ due

pub data Reachable : Ticking Player → Type 0 where
  open_page : (now : ℕ) → Reachable (mount playback initial now)
  event : {w : Ticking Player} {e : Event} → Reachable w → Offered e → Reachable (handle e w)
  timer : {w : Ticking Player} → Reachable w → Reachable (elapse w)
  -- Time passes, but not beyond the time at which the timer is due.
  wait :
      {w : Ticking Player} (later : ℕ)
      → Reachable w
      → w.now ≤ later
      → NotBefore later w.timer
      → Reachable (record w { now = later })

-- The stage is one of the five, and the speed one that the slider has.
pub record InRange (p : Player) : Type 0 where
  pub step_low : 1 ≤ p.step
  pub step_high : p.step ≤ 5
  pub speed_low : 1 ≤ p.speed
  pub speed_high : p.speed ≤ 4

update-InRange : (p : Player) {e : Event} → Offered e → InRange p → InRange (update e p)
unfolding update following
update-InRange p (stage n l h) i = ground arith
update-InRange p (chunk id) i = ground arith
update-InRange p (node id) i = ground arith
update-InRange p play i = ground arith
update-InRange p next i = ground arith
update-InRange p rewind i = ground arith
update-InRange p (slide v l h) i = ground arith

advance-InRange : (p : Player) → InRange p → InRange (advance p)
unfolding advance following
advance-InRange p i = ground arith

-- A timer is set exactly while the playback runs, and it is due before the delay of the speed is over.
abbrev pub TimerFits : Player → ℕ → Option ℕ → Type 0
TimerFits p now none = p.is_playing ≡ false
TimerFits p now (some due) = (p.is_playing ≡ true) × (now ≤ due) × (due ≤ now + 5600 / p.speed)

fresh-TimerFits :
    (p : Player) (now : ℕ) → TimerFits p now (due_after playback now (playback.delay p))
unfolding playback
fresh-TimerFits p now = elim (Bool-cases p.is_playing) [
  | inl e ↦ rw e (refl, omega arith, omega arith)
  | inr e ↦ rw e refl
]

kept-TimerFits :
    (p q : Player) (now : ℕ) (t : Option ℕ)
    → playback.same_deps p q ≡ true
    → TimerFits p now t
    → TimerFits q now t
unfolding playback
kept-TimerFits p q now none e h = ground arith
kept-TimerFits p q now (some due) e h =
    let playing : q.is_playing ≡ true = ground arith in
    let speed : p.speed ≡ q.speed = ground arith in
    (playing, h.1, subst (λ v. due ≤ now + 5600 / v) speed h.2)

settle-TimerFits :
    (old : Player) (w : Ticking Player)
    → (playback.same_deps old w.state ≡ true → TimerFits old w.now w.timer)
    → TimerFits
        (settle playback old w).state
        (settle playback old w).now
        (settle playback old w).timer
settle-TimerFits old w h = elim (Bool-cases (playback.same_deps old w.state)) [
  | inl e ↦ rw e (kept-TimerFits old w.state w.now w.timer e (h e))
  | inr e ↦ rw e (fresh-TimerFits w.state w.now)
]

settle-state : (old : Player) (w : Ticking Player) → (settle playback old w).state ≡ w.state
settle-state old w = elim (Bool-cases (playback.same_deps old w.state)) [
  | inl e ↦ rw e refl
  | inr e ↦ rw e refl
]

following-ne : (n : ℕ) → (n == following n) ≡ false
unfolding following
following-ne n = ground arith

-- The effect runs after each tick, because the stage has changed.
advance-runs : (p : Player) → playback.same_deps p (advance p) ≡ false
unfolding playback advance
advance-runs p = rw (following-ne p.step) (ground arith)

-- What a tick makes of a world whose timer is due.
pub ticked :
    (w : Ticking Player) (due : ℕ)
    → w.timer ≡ some due
    → elapse w ≡ record {
      state = advance w.state;
      now = due;
      timer = due_after playback due (playback.delay (advance w.state));
    }
unfolding elapse
ticked w due e = rw e (rw (advance-runs w.state) refl)

pub unticked : (w : Ticking Player) → w.timer ≡ none → elapse w ≡ w
unfolding elapse
unticked w e = rw e refl

-- What every sequence of clicks and ticks keeps.
pub record IsRunning (w : Ticking Player) : Type 0 where
  pub range : InRange w.state
  pub fits : TimerFits w.state w.now w.timer

handle-IsRunning :
    (w : Ticking Player) {e : Event} → Offered e → IsRunning w → IsRunning (handle e w)
unfolding handle
handle-IsRunning w {e} o i =
    let v : Ticking Player = record w { state = update e w.state } in
    record {
      range = subst InRange (sym (settle-state w.state v)) (update-InRange w.state o i.range);
      fits = settle-TimerFits w.state v (λ _. i.fits);
    }

elapse-IsRunning : (w : Ticking Player) → IsRunning w → IsRunning (elapse w)
elapse-IsRunning w i = elim (Option-cases w.timer) [
  | inl e ↦ subst IsRunning (sym (unticked w e)) i
  | inr (due, e) ↦ subst IsRunning (sym (ticked w due e)) (record {
    range = advance-InRange w.state i.range;
    fits = fresh-TimerFits (advance w.state) due;
  })
]

later-TimerFits :
    (p : Player) (now later : ℕ) (t : Option ℕ)
    → now ≤ later
    → NotBefore later t
    → TimerFits p now t
    → TimerFits p later t
later-TimerFits p now later none l h f = f
later-TimerFits p now later (some due) l h f = (f.0, h, omega (arith, f.2))

later-IsRunning :
    (w : Ticking Player) (later : ℕ)
    → w.now ≤ later
    → NotBefore later w.timer
    → IsRunning w
    → IsRunning (record w { now = later })
later-IsRunning w later l h i = record {
  range = i.range;
  fits = later-TimerFits w.state w.now later w.timer l h i.fits;
}

start-IsRunning : (now : ℕ) → IsRunning (mount playback initial now)
start-IsRunning now = record {
  range = record {
    step_low = omega arith;
    step_high = omega arith;
    speed_low = omega arith;
    speed_high = omega arith;
  };
  fits = fresh-TimerFits initial now;
}

-- In every reachable world the stage is one of the five and the speed one of the slider's, and a
-- timer is set exactly while the playback runs, due neither in the past nor later than the delay of
-- the speed.
pub Reachable-IsRunning : {w : Ticking Player} → Reachable w → IsRunning w
Reachable-IsRunning (open_page now) = start-IsRunning now
Reachable-IsRunning (event {w} {e} r o) = handle-IsRunning w o (Reachable-IsRunning r)
Reachable-IsRunning (timer {w} r) = elapse-IsRunning w (Reachable-IsRunning r)
Reachable-IsRunning (wait {w} later r l h) = later-IsRunning w later l h (Reachable-IsRunning r)
