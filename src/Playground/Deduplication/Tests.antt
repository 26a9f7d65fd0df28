-- ===== src/Playground/Deduplication/Tests.antt =====
-- Instances of the theorems about DeduplicationPlayground.tsx after the upload of an edited file.
use cloud_weave.Prelude.{◌-◌, ◌*◌, true, ◌≡◌, not, count_of, sum_of}
use cloud_weave.Html.{tag_count}
use cloud_weave.Playground.Deduplication.{
  Lab, initial, second_upload, update, reused_chunks, new_chunks, logical_mb, physical_mb,
  savings_pct,
}
use cloud_weave.Playground.Deduplication.Store.{
  put, before, holds, last_upload, uploaded_mb, Reachable, start, event, figures-Store,
  ticks-reused,
}
use cloud_weave.Playground.Deduplication.View.{view}

abbrev modified : Lab
modified = update (second_upload true) initial

modified-Reachable : Reachable modified
modified-Reachable = event start (second_upload true)

figures-Store_example :
    (physical_mb modified ≡ sum_of (λ c. c.mb) (put (last_upload modified) (before modified)))
    × (logical_mb modified ≡ uploaded_mb modified)
    × (reused_chunks modified ≡ count_of (holds (before modified)) (last_upload modified))
    × (new_chunks modified ≡ count_of (λ c. not (holds (before modified) c)) (last_upload modified))
figures-Store_example = figures-Store modified-Reachable

ticks-reused_example :
    (tag_count "CheckCircle2" (view modified) ≡ reused_chunks modified)
    × (savings_pct modified * logical_mb modified
        ≡ 100 * (logical_mb modified - physical_mb modified))
ticks-reused_example = ticks-reused modified-Reachable
