-- ===== src/Playground/Stepper/Tests.antt =====
-- The row of steps while the chunks are being replicated.
use cloud_weave.Prelude.{◌≡◌, map, keep}
use cloud_weave.Html.{clicks, tags}
use cloud_weave.Playground.Stepper.{replication, steps, is_mark, row_from, view, completed-view}

completed-view_example :
    (keep is_mark (tags (view replication)) ≡ row_from 3 0 steps)
    × (clicks (view replication) ≡ map (λ t. t.id) steps)
completed-view_example = completed-view replication
