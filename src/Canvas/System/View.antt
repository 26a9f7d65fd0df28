-- ===== src/Canvas/System/View.antt =====
-- documentation/components/canvas/MasterSystemCanvas.tsx: what it shows.
pub mod Bars
pub mod Upload
pub mod Nodes
use cloud_weave.Prelude.{
  ℕ, ◌+◌, ◌-◌, ◌*◌, String, Bool, true, false, not, ◌&&◌, ◌||◌, Option, none, some, List, [], ◌∷◌,
  range, leb, ltb, ◌==◌, if◌then◌else◌, show, cat, concat, same,
}
use cloud_weave.Html.{
  Node, prop, num, flag, fields, on, on_number, nothing, say, element, ◌&◌, each, each_from, when,
}
use cloud_weave.Canvas.System.{
  ChunkItem, chunks_data, NodeCoord, node_coords, steps_list, Player, active_chunk, Event, go_to,
  select_chunk, inspect, toggle_playing, next_step, reset, set_speed, label_of, description_of, cx,
  cy, ring_r, speed_text, has,
}
use cloud_weave.Trig.{Trig}
use cloud_weave.Canvas.System.View.Bars.{header, controls}
use cloud_weave.Canvas.System.View.Upload.{ingress, chunk_row}
use cloud_weave.Canvas.System.View.Nodes.{flows, node_cards, banner}

module _ (trig : Trig) where
  -- virtualTicks, by index.
  abbrev pub tick_x : ℕ → String
  tick_x i = trig.x_rounded cx ring_r (i * 360) 90

  abbrev pub tick_y : ℕ → String
  tick_y i = trig.y_rounded cy ring_r (i * 360) 90

  abbrev pub virtual_ticks : List ℕ
  virtual_ticks = range 90

  unfoldable pub ring : Player → Node Event
  ring p =
      (element "circle"
        (num "cx" cx
          ∷ num "cy" cy
          ∷ num "r" ring_r
          ∷ prop "fill" "none"
          ∷ prop "stroke" "#90E0EF"
          ∷ prop "strokeWidth" "3"
          ∷ [])
        nothing)
      & (each virtual_ticks (λ vt.
          element "circle"
            (num "key" vt
              ∷ prop "cx" (tick_x vt)
              ∷ prop "cy" (tick_y vt)
              ∷ prop "r" "1.5"
              ∷ prop "fill" "#0077B6"
              ∷ prop "opacity" "0.45"
              ∷ [])
            nothing))
      & (element "g" [] (
          (element "circle"
            (prop "cx" (trig.x_rounded cx ring_r (active_chunk p).angle_deg 1)
              ∷ prop "cy" (trig.y_rounded cy ring_r (active_chunk p).angle_deg 1)
              ∷ prop "r" "7"
              ∷ prop "fill" "#00B4D8"
              ∷ prop "opacity" "0.3"
              ∷ [])
            nothing)
          & (element "circle"
              (prop "cx" (trig.x_rounded cx ring_r (active_chunk p).angle_deg 1)
                ∷ prop "cy" (trig.y_rounded cy ring_r (active_chunk p).angle_deg 1)
                ∷ prop "r" "4"
                ∷ prop "fill" "#0077B6"
                ∷ [])
              nothing)))
      & (element "circle"
          (num "cx" cx
            ∷ num "cy" cy
            ∷ prop "r" "38"
            ∷ prop "fill" "#CAF0F8"
            ∷ prop "stroke" "#0077B6"
            ∷ prop "strokeWidth" "2"
            ∷ prop "filter" "url(#cardShadow)"
            ∷ [])
          nothing)
      & (element "text"
          (num "x" cx
            ∷ num "y" (cy - 6)
            ∷ prop "textAnchor" "middle"
            ∷ prop "fontSize" "9"
            ∷ prop "fontFamily" "Inter, sans-serif"
            ∷ prop "fontWeight" "bold"
            ∷ prop "fill" "#03045E"
            ∷ [])
          (say "Consistent"))
      & (element "text"
          (num "x" cx
            ∷ num "y" (cy + 7)
            ∷ prop "textAnchor" "middle"
            ∷ prop "fontSize" "9"
            ∷ prop "fontFamily" "Inter, sans-serif"
            ∷ prop "fontWeight" "bold"
            ∷ prop "fill" "#03045E"
            ∷ [])
          (say "Hash Ring"))
      & (element "text"
          (num "x" cx
            ∷ num "y" (cy + 18)
            ∷ prop "textAnchor" "middle"
            ∷ prop "fontSize" "7.5"
            ∷ prop "fontFamily" "JetBrains Mono, monospace"
            ∷ prop "fill" "#0077B6"
            ∷ [])
          (say "150 VNodes"))
      & (when ((p.step == 2) || (p.step == 3)) (
          element "motion.circle"
            (prop "r" "5"
              ∷ prop "fill" "#00B4D8"
              ∷ fields "animate" (
                  ("cx", (concat ("[" ∷ "450" ∷ ", " ∷ (show cx) ∷ "]" ∷ [])))
                  ∷ ("cy", (concat ("[" ∷ "172" ∷ ", " ∷ (show cy) ∷ "]" ∷ [])))
                  ∷ [])
              ∷ fields "transition" (
                  ("repeat", "Infinity")
                  ∷ ("duration", (concat ("1.0" ∷ " / " ∷ (speed_text p.speed) ∷ [])))
                  ∷ ("ease", "easeInOut")
                  ∷ [])
              ∷ [])
            nothing))

  unfoldable pub system : Player → Node Event
  unfolding ingress chunk_row ring flows node_cards banner
  system p = element "div" (prop "className" "w-full relative bg-[#FFFFFF] p-2 sm:p-4" ∷ []) (
      element "svg"
        (prop "viewBox" "0 0 900 550"
          ∷ prop "className" "w-full h-auto max-h-[580px]"
          ∷ fields "style" (("shapeRendering", "geometricPrecision") ∷ [])
          ∷ [])
        ((ingress p) & (chunk_row p) & (ring p) & (flows p) & (node_cards p) & (banner p)))

  -- The page of a stage with this label.
  unfoldable pub page : Player → String → Node Event
  unfolding header system controls
  page p label =
      element "div"
        (prop "className"
            "w-full flex flex-col bg-white rounded-2xl border-2 border-[#CBD5E1] shadow-sm select-none font-sans overflow-hidden"
          ∷ [])
        ((header p label) & (system p) & (controls p))

  -- `none` where the label of the stage throws.
  unfoldable pub view : Player → Option (Node Event)
  unfolding page
  view p = elim (label_of p.step) [ none ↦ none | some label ↦ some (page p label) ]
