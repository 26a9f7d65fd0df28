-- ===== src/Playground/Deduplication.antt =====
-- documentation/components/playground/DeduplicationPlayground.tsx: the second upload of a file of
-- four chunks, and the figures that the component derives from it.
pub mod View
pub mod Store
mod Tests
use cloud_weave.Prelude.{ℕ, ◌+◌, ◌-◌, ◌*◌, ◌/◌, Bool, true, false, ◌==◌, if◌then◌else◌}

pub record Lab : Type 0 where
  pub upload_count : ℕ
  pub has_edit : Bool

abbrev pub initial : Lab
initial = record { upload_count = 1; has_edit = false }

pub data Event : Type 0 where
  second_upload : Bool → Event
  reset : Event

-- handleSecondUpload and handleReset
unfoldable pub update : Event → Lab → Lab
update (second_upload edit) s = record s { has_edit = edit; upload_count = 2 }
update reset s = record s { upload_count = 1; has_edit = false }

unfoldable pub reused_chunks : Lab → ℕ
reused_chunks s = if s.upload_count == 1 then 0 else if s.has_edit then 3 else 4

unfoldable pub new_chunks : Lab → ℕ
new_chunks s = if s.upload_count == 1 then 4 else if s.has_edit then 1 else 0

unfoldable pub logical_mb : Lab → ℕ
logical_mb s = if s.upload_count == 1 then 60 else 120

unfoldable pub physical_mb : Lab → ℕ
physical_mb s = if s.upload_count == 1 then 60 else if s.has_edit then 78 else 60

-- `Math.round((a / b) * 100)`
unfoldable pub round_percent : ℕ → ℕ → ℕ
round_percent a b = (200 * a + b) / (2 * b)

unfoldable pub savings_pct : Lab → ℕ
unfolding logical_mb physical_mb round_percent
savings_pct s = round_percent (logical_mb s - physical_mb s) (logical_mb s)
