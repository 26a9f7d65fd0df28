-- ===== src/Pages/Experiments/Left.antt =====
-- ExperimentsView.tsx: a simulator that is left for another one is lost, with its timers.
use cloud_weave.Prelude.{
  ℕ, zero, suc, ◌+◌, ◌≡◌, ◌==◌, true, false, List, [], ◌∷◌, refl, ap, ◌∙◌, Bool-cases, inl, inr,
  arith,
}
use cloud_weave.EventLoop.{World, fire}
use cloud_weave.Pages.Experiments.{
  Experiment, failure, quorum, dedup, erasure, is_exp, active, mount, Page, Task, choose,
  choose_exp, handle, run,
}
use cloud_weave.Pages.Experiments.Tasks.{own, own-next}
use cloud_weave.Pages.Experiments.Runs.{Reachable, event, timer, tab, Reachable-IsKept}

-- Some timers run, and nothing is clicked.
abbrev pub fires : ℕ → World Page Task → World Page Task
fires zero w = w
fires (suc n) w = fires n (fire run w)

fires-Reachable : (n : ℕ) {w : World Page Task} → Reachable w → Reachable (fires n w)
fires-Reachable zero r = r
fires-Reachable (suc n) r = fires-Reachable n (timer r)

fire_gone :
    (w : World Page Task) (q : List (ℕ × Task))
    → w.queue ≡ q
    → own w.state.mounts q ≡ []
    → ((fire run w).state ≡ w.state) × (own w.state.mounts (fire run w).queue ≡ [])
unfolding run
fire_gone w [] e h = rw e (refl, refl)
fire_gone w ((due, (k, t)) ∷ q) e h = rw e (elim (Bool-cases (k == w.state.mounts)) [
  | inl same_mount ↦ absurd (ground arith)
  | inr other ↦ rw other (refl, ground arith)
])

-- Timers of simulators that are gone change nothing.
fires_gone :
    (n : ℕ) (w : World Page Task) → own w.state.mounts w.queue ≡ [] → (fires n w).state ≡ w.state
fires_gone zero w h = refl
fires_gone (suc n) w h =
    let (same_state, none_own) = fire_gone w w.queue refl h in
    fires_gone n (fire run w) (ap (λ p. own p.mounts (fire run w).queue) same_state ∙ none_own)
    ∙ same_state

choose_other :
    (exp : Experiment) (w : World Page Task)
    → is_exp exp (active w.state.lab) ≡ false
    → handle (choose_exp exp) w
      ≡ record w { state = record { lab = mount exp; mounts = w.state.mounts + 1 } }
unfolding handle choose
choose_other exp w e = rw e refl

-- A simulator that is mounted stays in its first state while only timers run.
left_once :
    (exp : Experiment) (n : ℕ) {w : World Page Task}
    → Reachable w
    → is_exp exp (active w.state.lab) ≡ false
    → (fires n (handle (choose_exp exp) w)).state
      ≡ record { lab = mount exp; mounts = w.state.mounts + 1 }
left_once exp n {w} r e = rw (choose_other exp w e) (
    fires_gone n (record w { state = record { lab = mount exp; mounts = w.state.mounts + 1 } })
      (own-next w.state.mounts w.queue (Reachable-IsKept r).tagged))

active-mount : (exp : Experiment) → active (mount exp) ≡ exp
active-mount failure = refl
active-mount quorum = refl
active-mount dedup = refl
active-mount erasure = refl

is_exp_refl : (a : Experiment) → is_exp a a ≡ true
is_exp_refl failure = refl
is_exp_refl quorum = refl
is_exp_refl dedup = refl
is_exp_refl erasure = refl

is_exp_sym : (a b : Experiment) → is_exp a b ≡ is_exp b a
is_exp_sym failure failure = refl
is_exp_sym failure quorum = refl
is_exp_sym failure dedup = refl
is_exp_sym failure erasure = refl
is_exp_sym quorum failure = refl
is_exp_sym quorum quorum = refl
is_exp_sym quorum dedup = refl
is_exp_sym quorum erasure = refl
is_exp_sym dedup failure = refl
is_exp_sym dedup quorum = refl
is_exp_sym dedup dedup = refl
is_exp_sym dedup erasure = refl
is_exp_sym erasure failure = refl
is_exp_sym erasure quorum = refl
is_exp_sym erasure dedup = refl
is_exp_sym erasure erasure = refl

choose_again : (exp : Experiment) (p : Page) → choose exp (choose exp p) ≡ choose exp p
unfolding choose
choose_again exp p = elim (Bool-cases (is_exp exp (active p.lab))) [
  | inl e ↦ rw e (rw e refl)
  | inr e ↦ rw e (rw (ap (is_exp exp) (active-mount exp) ∙ is_exp_refl exp) refl)
]

-- In every reachable world, if the simulator shown is left for another one, some timers run, the first
-- is chosen again and more timers run, it is shown in its first state, so that none of the timers that
-- it had set before reaches it; and a second click on the tab that was clicked changes nothing.
pub left-lost :
    {w : World Page Task} (exp : Experiment) (between later : ℕ)
    → Reachable w
    → is_exp exp (active w.state.lab) ≡ false
    → let first = active w.state.lab in
      let away = fires between (handle (choose_exp exp) w) in
      ((fires later (handle (choose_exp first) away)).state
        ≡ record { lab = mount first; mounts = w.state.mounts + 1 + 1 })
      × (handle (choose_exp exp) (handle (choose_exp exp) w) ≡ handle (choose_exp exp) w)
unfolding handle
left-lost {w} exp between later r e =
    let first = active w.state.lab in
    let away = fires between (handle (choose_exp exp) w) in
    let there = left_once exp between r e in
    let other : is_exp first (active away.state.lab) ≡ false =
      ap (λ p. is_exp first (active p.lab)) there
      ∙ (ap (is_exp first) (active-mount exp) ∙ (is_exp_sym first exp ∙ e)) in
    (
      left_once first later (fires-Reachable between (event r (tab exp))) other
          ∙ ap (λ p. record { lab = mount first; mounts = p.mounts + 1 }) there,
      ap (λ p. record w { state = p }) (choose_again exp w.state),
    )
