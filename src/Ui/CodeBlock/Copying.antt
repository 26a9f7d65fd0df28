-- ===== src/Ui/CodeBlock/Copying.antt =====
-- The copy button of ui/CodeBlock.tsx, with the clipboard that it shares with everything else.
use cloud_weave.Prelude.{
  ℕ, ◌+◌, ◌≤◌, Bool, true, false, Option, some, List, [], ◌∷◌, if◌then◌else◌, ◌≡◌, refl, ap, subst,
  arith,
}
use cloud_weave.EventLoop.{
  schedule-ne-nil, World, change, fire, IsOrdered, IsTimely, schedule-IsTimely, wait-IsTimely,
  DueBy-mono,
}
use cloud_weave.EventLoop.Clipboard.{
  Clipboard, settle_text, overwrite, Only, Only-write_text, Only-settle_text,
  settle_text-write_text,
}
use cloud_weave.Ui.CodeBlock.Regex.{Text}
use cloud_weave.Ui.CodeBlock.Widget.{Props, Block, Task, uncopy, run, handle_copy}

-- What happens to the clipboard outside the handler.
abbrev pub on_clipboard : (Clipboard Text → Clipboard Text) → World Block Task → World Block Task
on_clipboard f w = change (λ s. record s { clipboard = f s.clipboard }) w

-- What clicks on the copy button, timers, the browser and others lead to.
pub data Reachable (p : Props) : World Block Task → Type 0 where
  start :
      (now : ℕ) (held : Option Text)
      → Reachable p (record {
        state = record { copied = false; clipboard = record { content = held; pending = [] } };
        now = now;
        queue = [];
      })
  click : {w : World Block Task} → Reachable p w → Reachable p (handle_copy p w)
  settled :
      {w : World Block Task} (granted : Bool)
      → Reachable p w
      → Reachable p (on_clipboard (settle_text granted) w)
  elsewhere :
      {w : World Block Task} (t : Text) → Reachable p w → Reachable p (on_clipboard (overwrite t) w)
  timer : {w : World Block Task} → Reachable p w → Reachable p (fire run w)
  -- Time passes, but not beyond the first task that is due.
  wait :
      {w : World Block Task} (later : ℕ)
      → Reachable p w
      → IsOrdered later w.queue
      → w.now ≤ later
      → Reachable p (record w { now = later })

-- Only the source is handed to the browser; the label of a copy ends with the timers, and all of
-- them are due within two seconds.
pub record IsHonest (p : Props) (w : World Block Task) : Type 0 where
  pub asked : Only p.source w.state.clipboard.pending
  pub ends : w.queue ≡ [] → w.state.copied ≡ false
  pub timely : IsTimely 2000 w.now w.queue

handle_copy-IsHonest :
    (p : Props) (w : World Block Task) → IsHonest p w → IsHonest p (handle_copy p w)
unfolding handle_copy
handle_copy-IsHonest p w h = record {
  asked = Only-write_text p.source w.state.clipboard h.asked;
  ends = λ e. absurd (schedule-ne-nil (w.now + 2000) uncopy w.queue e);
  timely = schedule-IsTimely 2000 w.now uncopy w.queue h.timely;
}

fire-IsHonest :
    (p : Props) (w : World Block Task) (q : List (ℕ × Task))
    → w.queue ≡ q
    → IsHonest p w
    → IsHonest p (fire run w)
unfolding run
fire-IsHonest p w [] e h =
    rw e (record { asked = h.asked; ends = λ f. h.ends e; timely = (tt, tt) })
fire-IsHonest p w ((due, uncopy) ∷ q) e h =
    let t : IsTimely 2000 w.now ((due, uncopy) ∷ q) =
      subst (λ x. IsTimely 2000 w.now x) e h.timely in
    rw e (record {
      asked = h.asked;
      ends = λ f. refl;
      timely = (t.0.1, DueBy-mono (w.now + 2000) (due + 2000) q (omega (arith, t.0.0)) t.1.1);
    })

-- In every reachable world, whatever the browser does with the texts it is given and others do with
-- the clipboard, every text still to be written is the source of the block, the button says "Copy"
-- once no timer is left, and every timer is due within two seconds.
pub Reachable-IsHonest : (p : Props) {w : World Block Task} → Reachable p w → IsHonest p w
Reachable-IsHonest p (start now held) = record { asked = tt; ends = λ e. refl; timely = (tt, tt) }
Reachable-IsHonest p (click {w} r) = handle_copy-IsHonest p w (Reachable-IsHonest p r)
Reachable-IsHonest p (settled {w} granted r) =
    let h = Reachable-IsHonest p r in
    record {
      asked = Only-settle_text p.source granted w.state.clipboard h.asked;
      ends = h.ends;
      timely = h.timely;
    }
Reachable-IsHonest p (elsewhere t r) =
    let h = Reachable-IsHonest p r in record { asked = h.asked; ends = h.ends; timely = h.timely }
Reachable-IsHonest p (wait {w} later r o le) =
    let h = Reachable-IsHonest p r in
    record {
      asked = h.asked;
      ends = h.ends;
      timely = wait-IsTimely 2000 w.now later w.queue le o h.timely;
    }
Reachable-IsHonest p (timer {w} r) = fire-IsHonest p w w.queue refl (Reachable-IsHonest p r)

-- From every reachable world in which no promise of the clipboard is open, a click and the answer of
-- the browser lead to a reachable world in which the button says that the code is copied, whether the
-- answer grants the copy or refuses it; the clipboard then holds the source if it was granted and what
-- it held before if it was refused.
pub copied_regardless :
    (p : Props) {w : World Block Task} (granted : Bool)
    → Reachable p w
    → w.state.clipboard.pending ≡ []
    → let after = on_clipboard (settle_text granted) (handle_copy p w) in
      Reachable p after
      × (after.state.copied ≡ true)
      × (after.state.clipboard.pending ≡ [])
      × (after.state.clipboard.content
          ≡ (if granted then some p.source else w.state.clipboard.content))
unfolding handle_copy
copied_regardless p {w} granted r e =
    let answer = settle_text-write_text granted p.source w.state.clipboard e in
    (settled granted (click r), refl, ap (λ c. c.pending) answer, ap (λ c. c.content) answer)
