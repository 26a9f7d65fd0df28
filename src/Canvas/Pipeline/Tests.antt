-- ===== src/Canvas/Pipeline/Tests.antt =====
-- An instance of the theorem about Pipeline3DScroll.tsx at the last stage.
use cloud_weave.Prelude.{false, arith}
use cloud_weave.Canvas.Pipeline.{Walk, initial, choose, next, handle}
use cloud_weave.Canvas.Pipeline.Steps.{
  Reachable, open_page, event, tab, forth, InRange, Agrees, Reachable-Agrees,
}

abbrev last_stage : Walk
last_stage = handle next (handle (choose 5) (initial false))

last_stage-Reachable : Reachable last_stage
last_stage-Reachable = event (event (open_page false) (tab 5 (omega arith) (omega arith))) forth

Reachable-Agrees_example : InRange last_stage × Agrees last_stage
Reachable-Agrees_example = Reachable-Agrees last_stage-Reachable
