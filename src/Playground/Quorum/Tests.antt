-- ===== src/Playground/Quorum/Tests.antt =====
-- Instances of the theorems about QuorumVisualizer.tsx at concrete states.
use cloud_weave.Prelude.{true, false, none, some, ◌≡◌, ◌≢◌, ◌↔◌, inl, refl, arith}
use cloud_weave.Playground.Quorum.{
  Quorum, initial, set_w, toggle_node_fail, update, write_success, strong_consistency,
}
use cloud_weave.Playground.Quorum.Overlap.{QuorumsOverlap, strong_consistency_iff}
use cloud_weave.Playground.Quorum.Laws.{
  slide_w, click_card, Reachable, start, event, write_fails_iff,
}

-- W and R of two among three replicas.
abbrev two_of_three : Quorum
two_of_three = record { w = 2; r = 2; n = 3; failed_node = some 3 }

strong_consistency_iff_example : (strong_consistency two_of_three ≡ true) ↔ QuorumsOverlap 3 2 2
strong_consistency_iff_example = strong_consistency_iff two_of_three (omega arith) (omega arith)

-- Three acknowledgments are asked for.
abbrev strict : Quorum
strict = update (set_w 3) (update (toggle_node_fail 1) initial)

strict-Reachable : Reachable strict
strict-Reachable =
    event (event start (click_card 1 (inl refl))) (slide_w 3 (omega arith) (omega arith))

write_fails_iff_example :
    (write_success strict ≡ false) ↔ ((strict.w ≡ 3) × (strict.failed_node ≢ none))
write_fails_iff_example = write_fails_iff strict-Reachable
