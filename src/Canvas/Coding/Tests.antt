-- ===== src/Canvas/Coding/Tests.antt =====
-- Instances of the theorems about ErasureCoding3D.tsx.
use cloud_weave.Prelude.{[], ◌∷◌, ◌≡◌, refl}
use cloud_weave.EventLoop.{World, fire}
use cloud_weave.Canvas.Coding.{
  Coding, initial, failed_count, can_reconstruct, Task, run, toggle, reconstruct, handle,
  toggle_shard,
}
use cloud_weave.Canvas.Coding.Rebuild.{toggles, rebuild_regardless}

-- One shard has failed.
abbrev degraded : World Coding Task
degraded = record {
  state = record initial { shards = toggle_shard "d1" initial.shards };
  now = 0;
  queue = [];
}

-- Four shards are lost while one is being rebuilt.
abbrev lost : World Coding Task
lost = toggles ("d2" ∷ "d3" ∷ "d4" ∷ "p1" ∷ []) (handle reconstruct degraded)

rebuild_regardless_example : failed_count (fire run lost).state.shards ≡ 0
unfolding can_reconstruct handle toggle_shard
rebuild_regardless_example =
    rebuild_regardless degraded ("d2" ∷ "d3" ∷ "d4" ∷ "p1" ∷ []) refl refl refl

abbrev toggled : World Coding Task
toggled = handle (toggle "p2") (record { state = initial; now = 0; queue = [] })
