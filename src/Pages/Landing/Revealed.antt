-- ===== src/Pages/Landing/Revealed.antt =====
-- LandingPage.tsx: the install command and the lock that reveals it.
use cloud_weave.Prelude.{
  ℕ, ◌+◌, ◌≤◌, String, Bool, true, false, any, List, [], ◌∷◌, same, if◌then◌else◌, ◌≡◌, refl, subst,
  arith,
}
use cloud_weave.Html.{clicks, texts}
use cloud_weave.EventLoop.{
  World, fire, IsOrdered, schedule-ne-nil, change, IsTimely, schedule-IsTimely, wait-IsTimely,
  DueBy-mono,
}
use cloud_weave.EventLoop.Clipboard.{
  Clipboard, settle_text, overwrite, Only, Only-write_text, Only-settle_text,
}
use cloud_weave.Pages.Landing.{
  Landing, initial, Event, copy_install, lock, toggle_lock, Task, uncopy, run, install_command,
  handle,
}
use cloud_weave.Pages.Landing.View.{view}

-- What can be done in a state: the lock can always be turned, and the buttons are those shown.
pub data Offered (s : Landing) : Event → Type 0 where
  copying : s.is_cta_vault_locked ≡ true → Offered s copy_install
  locking : s.is_cta_vault_locked ≡ false → Offered s lock
  turning : Offered s toggle_lock

-- What happens to the clipboard outside the handlers.
abbrev pub on_clipboard :
    (Clipboard String → Clipboard String) → World Landing Task → World Landing Task
on_clipboard f w = change (λ s. record s { clipboard = f s.clipboard }) w

pub data Reachable : World Landing Task → Type 0 where
  open_page : (now : ℕ) → Reachable (record { state = initial; now = now; queue = [] })
  event :
      {w : World Landing Task} {e : Event}
      → Reachable w
      → Offered w.state e
      → Reachable (handle e w)
  settled :
      {w : World Landing Task} (granted : Bool)
      → Reachable w
      → Reachable (on_clipboard (settle_text granted) w)
  elsewhere :
      {w : World Landing Task} (t : String) → Reachable w → Reachable (on_clipboard (overwrite t) w)
  timer : {w : World Landing Task} → Reachable w → Reachable (fire run w)
  -- Time passes, but not beyond the first task that is due.
  wait :
      {w : World Landing Task} (later : ℕ)
      → Reachable w
      → IsOrdered later w.queue
      → w.now ≤ later
      → Reachable (record w { now = later })

-- Only the command is handed to the browser; the notice of a copy ends with the timers, and all of
-- them are due within two seconds.
pub record IsTruthful (w : World Landing Task) : Type 0 where
  pub written : Only install_command w.state.clipboard.pending
  pub passing : w.queue ≡ [] → w.state.copied ≡ false
  pub timely : IsTimely 2000 w.now w.queue

handle-IsTruthful :
    (w : World Landing Task) {e : Event}
    → Offered w.state e
    → IsTruthful w
    → IsTruthful (handle e w)
unfolding handle
handle-IsTruthful w (copying h) i = record {
  written = Only-write_text install_command w.state.clipboard i.written;
  passing = λ e. absurd (schedule-ne-nil (w.now + 2000) uncopy w.queue e);
  timely = schedule-IsTimely 2000 w.now uncopy w.queue i.timely;
}
handle-IsTruthful w (locking h) i = record {
  written = i.written;
  passing = i.passing;
  timely = i.timely;
}
handle-IsTruthful w turning i = record {
  written = i.written;
  passing = i.passing;
  timely = i.timely;
}

fire-IsTruthful :
    (w : World Landing Task) (q : List (ℕ × Task))
    → w.queue ≡ q
    → IsTruthful w
    → IsTruthful (fire run w)
unfolding run
fire-IsTruthful w [] e h =
    rw e (record { written = h.written; passing = λ f. h.passing e; timely = (tt, tt) })
fire-IsTruthful w ((due, uncopy) ∷ q) e h =
    let t : IsTimely 2000 w.now ((due, uncopy) ∷ q) =
      subst (λ x. IsTimely 2000 w.now x) e h.timely in
    rw e (record {
      written = h.written;
      passing = λ f. refl;
      timely = (t.0.1, DueBy-mono (w.now + 2000) (due + 2000) q (omega (arith, t.0.0)) t.1.1);
    })

Reachable-IsTruthful : {w : World Landing Task} → Reachable w → IsTruthful w
Reachable-IsTruthful (open_page now) = record {
  written = tt;
  passing = λ e. refl;
  timely = (tt, tt);
}
Reachable-IsTruthful (event {w} r o) = handle-IsTruthful w o (Reachable-IsTruthful r)
Reachable-IsTruthful (timer {w} r) = fire-IsTruthful w w.queue refl (Reachable-IsTruthful r)
Reachable-IsTruthful (settled {w} granted r) = record {
  written =
      Only-settle_text install_command granted w.state.clipboard (Reachable-IsTruthful r).written;
  passing = (Reachable-IsTruthful r).passing;
  timely = (Reachable-IsTruthful r).timely;
}
Reachable-IsTruthful (elsewhere t r) = record {
  written = (Reachable-IsTruthful r).written;
  passing = (Reachable-IsTruthful r).passing;
  timely = (Reachable-IsTruthful r).timely;
}
Reachable-IsTruthful (wait {w} later r o h) = record {
  timely = wait-IsTimely 2000 w.now later w.queue h o (Reachable-IsTruthful r).timely;
  written = (Reachable-IsTruthful r).written;
  passing = (Reachable-IsTruthful r).passing;
}

-- What the page reveals: the command to install and its button just while the lock is closed.
abbrev pub IsRevealed : Landing → Type 0
IsRevealed s =
    (any (λ t. same t install_command) (texts (view s)) ≡ s.is_cta_vault_locked)
    × (clicks (view s) ≡ (if s.is_cta_vault_locked then copy_install else lock) ∷ [])

revealed :
    (copied locked : Bool) (clipboard : Clipboard String)
    → IsRevealed (record { copied = copied; is_cta_vault_locked = locked; clipboard = clipboard })
unfolding view
revealed true true clipboard = (refl, refl)
revealed true false clipboard = (refl, refl)
revealed false true clipboard = (refl, refl)
revealed false false clipboard = (refl, refl)

-- In every reachable world the command to install is shown, with a button that copies it, exactly while
-- the lock is closed, and otherwise a button that closes the lock; whatever
-- the browser and others do with the clipboard, every text still to be written to it is the command that is
-- shown, once no timer is left the page does not say that it was copied, and every timer is due within two
-- seconds.
pub Reachable-IsRevealed :
    {w : World Landing Task} → Reachable w → IsRevealed w.state × IsTruthful w
Reachable-IsRevealed {w} r =
    (revealed w.state.copied w.state.is_cta_vault_locked w.state.clipboard, Reachable-IsTruthful r)
