-- ===== src/Canvas/System/Tests.antt =====
-- Instances of the theorems about MasterSystemCanvas.tsx after the speed was set to 2x and two ticks.
use cloud_weave.Prelude.{
  ◌+◌, String, some, ◌≡◌, refl, arith, if◌then◌else◌, show, concat, [], ◌∷◌, ◌==◌,
}
use cloud_weave.Html.{tag_count}
use cloud_weave.Trig.{Trig}
use cloud_weave.EventLoop.Effect.{Ticking, mount}
use cloud_weave.Canvas.System.{
  Player, initial, set_speed, reset, update, following, advance, playback, handle, elapse,
}
use cloud_weave.Canvas.System.View.{view, page}
use cloud_weave.Canvas.System.View.Nodes.{flows, node_cards}
use cloud_weave.Canvas.System.Playback.{
  Reachable, open_page, event, timer, slide, IsRunning, Reachable-IsRunning,
}
use cloud_weave.Canvas.System.Laps.{elapses, Lapped, Reachable-Lapped, rested, elapses-reset}
use cloud_weave.Canvas.System.Shown.{copies_sent, copies-shown, view-Reachable}

unfoldable run : Ticking Player
unfolding handle elapse
run = elapse (elapse (handle (set_speed 4) (mount playback initial 100)))

run-Reachable : Reachable run
unfolding run
run-Reachable = timer (timer (event (open_page 100) (slide 4 (omega arith) (omega arith))))

run_due : run.timer ≡ some 4300
unfolding run handle elapse playback update advance following
run_due = refl

Reachable-IsRunning_example : IsRunning run
Reachable-IsRunning_example = Reachable-IsRunning run-Reachable

Reachable-Lapped_example : Lapped run (elapses 3 run) 4300 2
Reachable-Lapped_example = Reachable-Lapped run-Reachable 4300 2 run_due

elapses-reset_example : elapses 3 (handle reset run) ≡ rested run
elapses-reset_example = elapses-reset run-Reachable 3

copies-shown_example :
    (tag_count "motion.circle" (flows run.state)
      ≡ copies_sent run.state.step + (if run.state.step == 5 then 2 else 0))
    × (tag_count "polyline" (node_cards run.state) ≡ (if run.state.step == 5 then 3 else 0))
copies-shown_example = copies-shown run.state

-- Coordinates left as terms.
abbrev spelled : Trig
spelled = record {
  x = λ center radius num den.
      concat (show center ∷ "+" ∷ show radius ∷ "cos" ∷ show num ∷ "/" ∷ show den ∷ []);
  y = λ center radius num den.
      concat (show center ∷ "+" ∷ show radius ∷ "sin" ∷ show num ∷ "/" ∷ show den ∷ []);
  x_rounded = λ center radius num den.
      concat (show center ∷ "+" ∷ show radius ∷ "cos" ∷ show num ∷ "/" ∷ show den ∷ []);
  y_rounded = λ center radius num den.
      concat (show center ∷ "+" ∷ show radius ∷ "sin" ∷ show num ∷ "/" ∷ show den ∷ []);
  plus = λ t n. concat (t ∷ "+" ∷ show n ∷ []);
  minus = λ t n. concat (t ∷ "-" ∷ show n ∷ []);
}

view-Reachable_example :
    (label : String) × (view spelled run.state ≡ some (page spelled run.state label))
view-Reachable_example = view-Reachable spelled run-Reachable
