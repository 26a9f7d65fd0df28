-- ===== src/Canvas/Pipeline.antt =====
-- documentation/components/canvas/Pipeline3DScroll.tsx: the walk through the stages of the pipeline. What is
-- drawn in three dimensions stays an element that is not looked into.
pub mod Stages
pub mod View
pub mod Steps
mod Tests
use cloud_weave.Prelude.{
  ℕ, ◌+◌, ◌-◌, Bool, true, false, not, List, [], ◌∷◌, length, find?, get_or, leb, ◌==◌,
  if◌then◌else◌,
}
use cloud_weave.Canvas.Pipeline.Stages.{PipelineStage, stages, s3_ingestion}

pub record Walk : Type 0 where
  pub active_stage_id : ℕ
  pub show_code : Bool
  pub prefers_reduced_motion : Bool

-- The component, where the media query matches or not.
abbrev pub initial : Bool → Walk
initial matches = record { active_stage_id = 1; show_code = true; prefers_reduced_motion = matches }

pub data Event : Type 0 where
  choose : ℕ → Event
  previous next toggle_code : Event
  -- The listener of the media query.
  media_changed : Bool → Event

-- Math.max and Math.min
abbrev pub max : ℕ → ℕ → ℕ
max a b = if leb a b then b else a

abbrev pub min : ℕ → ℕ → ℕ
min a b = if leb a b then a else b

unfoldable pub handle : Event → Walk → Walk
unfolding stages
handle (choose id) s = record s { active_stage_id = id }
handle previous s = record s { active_stage_id = max 1 (s.active_stage_id - 1) }
handle next s = record s { active_stage_id = min (length stages) (s.active_stage_id + 1) }
handle toggle_code s = record s { show_code = not s.show_code }
handle (media_changed matches) s = record s { prefers_reduced_motion = matches }

-- currentStage
unfoldable pub current_stage : Walk → PipelineStage
unfolding stages
current_stage s = get_or (find? (λ t. t.id == s.active_stage_id) stages) s3_ingestion
