-- ===== src/Canvas/System/Laps.antt =====
-- MasterSystemCanvas.tsx: the playback left to run, and stopped.
use cloud_weave.Prelude.{
  ℕ, zero, suc, ◌+◌, ◌-◌, ◌*◌, ◌/◌, ◌%◌, true, false, none, some, ◌≡◌, refl, ap, sym, subst, ◌∙◌,
  arith, Bool-cases, Option-cases, inl, inr,
}
use cloud_weave.EventLoop.Effect.{Ticking, due_after}
use cloud_weave.Canvas.System.{Player, following, advance, playback, handle, elapse, reset, update}
use cloud_weave.Canvas.System.Playback.{
  ticked, unticked, TimerFits, Reachable, Reachable-IsRunning, InRange,
}

-- The stages in turn, counted from 0.
following-mod : (m : ℕ) → following (1 + m % 5) ≡ 1 + suc m % 5
unfolding following
following-mod m = ground arith

-- The timer fires `k` times.
abbrev pub elapses : ℕ → Ticking Player → Ticking Player
elapses zero w = w
elapses (suc k) w = elapse (elapses k w)

-- What a world is after a number of ticks: the stage counted on from `first`, and the next tick a delay
-- later.
pub record Lapped (w v : Ticking Player) (due k : ℕ) : Type 0 where
  pub stage : v.state.step ≡ 1 + (w.state.step - 1 + suc k) % 5
  pub playing : v.state.is_playing ≡ true
  pub speed : v.state.speed ≡ w.state.speed
  pub time : v.now ≡ due + k * (5600 / w.state.speed)
  pub next : v.timer ≡ some (v.now + 5600 / w.state.speed)

delay_playing : (p : Player) → p.is_playing ≡ true → playback.delay p ≡ some (5600 / p.speed)
unfolding playback
delay_playing p e = rw e refl

one_tick :
    (v : Ticking Player) (due : ℕ)
    → v.timer ≡ some due
    → v.state.is_playing ≡ true
    → ((elapse v).state ≡ advance v.state)
      × ((elapse v).now ≡ due)
      × ((elapse v).timer ≡ some (due + 5600 / v.state.speed))
one_tick v due e on = rw (ticked v due e) (
  refl,
  refl,
  ap (due_after playback due) (delay_playing (advance v.state) (unfold advance in on))
      ∙ (unfold advance in refl),
)

lapped :
    (w : Ticking Player) (due k : ℕ)
    → InRange w.state
    → w.timer ≡ some due
    → w.state.is_playing ≡ true
    → Lapped w (elapses (suc k) w) due k
unfolding advance
lapped w due zero i e on =
    let (state, now, timer) = one_tick w due e on in
    record {
      stage =
          ap (λ p. p.step) state ∙ (unfold following in ground (arith, i.step_low, i.step_high));
      playing = ap (λ p. p.is_playing) state ∙ on;
      speed = ap (λ p. p.speed) state;
      time = omega (arith, now);
      next = timer ∙ ap (λ t. some (t + 5600 / w.state.speed)) (sym now);
    }
lapped w due (suc k) i e on =
    let so_far = lapped w due k i e on in
    let v = elapses (suc k) w in
    let (state, now, timer) =
      one_tick v (v.now + 5600 / w.state.speed) so_far.next so_far.playing in
    let delay : 5600 / v.state.speed ≡ 5600 / w.state.speed = ap (λ t. 5600 / t) so_far.speed in
    let count : suc (w.state.step - 1 + suc k) ≡ w.state.step - 1 + suc (suc k) = omega arith in
    record {
      stage =
          ap (λ p. p.step) state
          ∙ (ap following so_far.stage
              ∙ (following-mod (w.state.step - 1 + suc k) ∙ ap (λ t. 1 + t % 5) count));
      playing = ap (λ p. p.is_playing) state ∙ so_far.playing;
      speed = ap (λ p. p.speed) state ∙ so_far.speed;
      time = now ∙ omega (arith, so_far.time);
      next = timer ∙ ap some (omega (arith, now, delay));
    }

on_while_due :
    {w : Ticking Player} → Reachable w → (due : ℕ) → w.timer ≡ some due → w.state.is_playing ≡ true
on_while_due {w} r due e = (subst (TimerFits w.state w.now) e (Reachable-IsRunning r).fits).0

-- In every reachable world whose timer is due, the playback never stops by itself: the timer can fire
-- any number of times, one delay of the speed apart, and the stages then follow each other in turn,
-- the first after the fifth.
pub Reachable-Lapped :
    {w : Ticking Player}
    → Reachable w
    → (due k : ℕ) → w.timer ≡ some due
    → Lapped w (elapses (suc k) w) due k
Reachable-Lapped {w} r due k e =
    lapped w due k (Reachable-IsRunning r).range e (on_while_due r due e)

-- A world whose playback is at rest on the first stage.
abbrev pub rested : Ticking Player → Ticking Player
rested w = record {
  state = record w.state { is_playing = false; step = 1 };
  now = w.now;
  timer = none;
}

untimed : {w : Ticking Player} → Reachable w → w.state.is_playing ≡ false → w.timer ≡ none
untimed {w} r off = elim (Option-cases w.timer) [
  | inl e ↦ e
  | inr (due, e) ↦ let on = on_while_due r due e in cc
]

reset-rested : {w : Ticking Player} → Reachable w → handle reset w ≡ rested w
unfolding handle update playback
reset-rested {w} r = elim (Bool-cases w.state.is_playing) [
  | inl on ↦ rw on refl
  | inr off ↦ ground (arith, untimed r off)
]

elapses-rested : (w : Ticking Player) (k : ℕ) → elapses k (rested w) ≡ rested w
elapses-rested w zero = refl
elapses-rested w (suc k) = ap elapse (elapses-rested w k) ∙ unticked (rested w) refl

-- In every reachable world the reset button stops the playback on the first stage and changes nothing
-- else of the state, and no timer that was set before it, however long one waits, moves on from there.
pub elapses-reset :
    {w : Ticking Player} → Reachable w → (k : ℕ) → elapses k (handle reset w) ≡ rested w
elapses-reset {w} r k = ap (elapses k) (reset-rested r) ∙ elapses-rested w k
