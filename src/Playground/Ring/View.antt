-- ===== src/Playground/Ring/View.antt =====
-- documentation/components/playground/ConsistentHashRing.tsx: what it shows.
use cloud_weave.Prelude.{
  ℕ, ◌+◌, ◌*◌, String, ◌||◌, [], ◌∷◌, if◌then◌else◌, show, cat, join, replace, same,
}
use cloud_weave.Html.{Node, prop, num, fields, on, nothing, say, element, ◌&◌, each}
use cloud_weave.Trig.{Trig}
use cloud_weave.Playground.Chunks.{sample_chunks}
use cloud_weave.Playground.Ring.{
  NodePos, radius, center_x, center_y, virtual_nodes, Ring, active_chunk, chunk_angle, Event,
  toggle_node, select_chunk, includes,
}

module _ (trig : Trig) where
  -- virtualNodes, by index.
  abbrev pub vn_x : ℕ → String
  vn_x i = trig.x_rounded center_x radius (i * 360) 150

  abbrev pub vn_y : ℕ → String
  vn_y i = trig.y_rounded center_y radius (i * 360) 150

  unfoldable pub marker : Ring → Node Event
  marker r =
      let x = trig.x center_x radius (chunk_angle r) 1 in
      let y = trig.y center_y radius (chunk_angle r) 1 in
      element "g" [] (
        (element "motion.line"
          (num "x1" center_x
            ∷ num "y1" center_y
            ∷ prop "x2" x
            ∷ prop "y2" y
            ∷ prop "stroke" "#00B4D8"
            ∷ prop "strokeWidth" "2"
            ∷ prop "strokeDasharray" "3 3"
            ∷ fields "initial" (("pathLength", "0") ∷ [])
            ∷ fields "animate" (("pathLength", "1") ∷ [])
            ∷ fields "transition" (("duration", "0.5") ∷ [])
            ∷ [])
          nothing)
        & (element "circle" (prop "cx" x ∷ prop "cy" y ∷ prop "r" "7" ∷ prop "fill" "#00B4D8" ∷ [])
            nothing)
        & (element "circle"
            (prop "cx" x
              ∷ prop "cy" y
              ∷ prop "r" "11"
              ∷ prop "fill" "none"
              ∷ prop "stroke" "#00B4D8"
              ∷ prop "strokeWidth" "1.5"
              ∷ prop "className" "animate-ping"
              ∷ [])
            nothing))

  unfoldable pub node_mark : Ring → NodePos → Node Event
  node_mark r node =
      let x = trig.x center_x radius node.angle_deg 1 in
      let y = trig.y center_y radius node.angle_deg 1 in
      let is_primary = same (active_chunk r).primary_node node.name in
      let is_replica = includes (active_chunk r).replicas node.name in
      element "g"
        (prop "key" node.id
          ∷ prop "className" "cursor-pointer"
          ∷ on "onClick" (toggle_node node.id)
          ∷ [])
        ((element "circle"
            (prop "cx" x
              ∷ prop "cy" y
              ∷ prop "r" "24"
              ∷ prop "fill" (
                  if is_primary
                  then "#0077B6"
                  else if is_replica
                  then "#CAF0F8"
                  else if node.active
                  then "#FFFFFF"
                  else "#FEECEB")
              ∷ prop "stroke" (
                  if is_primary
                  then "#03045E"
                  else if is_replica
                  then "#00B4D8"
                  else if node.active
                  then "#CBD5E1"
                  else "#E5484D")
              ∷ prop "strokeWidth" (if is_primary || is_replica then "2.5" else "1.5")
              ∷ [])
            nothing)
          & (element "text"
              (prop "x" x
                ∷ prop "y" (trig.plus y 4)
                ∷ prop "textAnchor" "middle"
                ∷ prop "fontSize" "10"
                ∷ prop "fontFamily" "JetBrains Mono, monospace"
                ∷ prop "fontWeight" "bold"
                ∷ prop "fill"
                    (if is_primary then "#FFFFFF" else if node.active then "#03045E" else "#E5484D")
                ∷ [])
              (say (replace "Node " "N" node.name)))
          & (element "circle"
              (prop "cx" (trig.plus x 16)
                ∷ prop "cy" (trig.minus y 16)
                ∷ prop "r" "4"
                ∷ prop "fill"
                    (if node.active then if is_primary then "#22A06B" else "#00B4D8" else "#E5484D")
                ∷ [])
              nothing))

  unfoldable pub drawing : Ring → Node Event
  unfolding marker node_mark
  drawing r = element "svg" (prop "viewBox" "0 0 400 400" ∷ prop "className" "w-full h-full" ∷ []) (
      (element "circle"
        (num "cx" center_x
          ∷ num "cy" center_y
          ∷ num "r" radius
          ∷ prop "fill" "none"
          ∷ prop "stroke" "#E2E8F0"
          ∷ prop "strokeWidth" "3"
          ∷ prop "strokeDasharray" "4 4"
          ∷ [])
        nothing)
      & (element "circle"
          (num "cx" center_x
            ∷ num "cy" center_y
            ∷ num "r" (radius + 18)
            ∷ prop "fill" "none"
            ∷ prop "stroke" "#F1F5F9"
            ∷ prop "strokeWidth" "1"
            ∷ [])
          nothing)
      & (each virtual_nodes (λ vn.
          element "circle"
            (num "key" vn.id
              ∷ prop "cx" (vn_x vn.id)
              ∷ prop "cy" (vn_y vn.id)
              ∷ prop "r" "1.5"
              ∷ prop "fill" "#90E0EF"
              ∷ prop "opacity" "0.6"
              ∷ [])
            nothing))
      & (marker r)
      & (each r.nodes (node_mark r))
      & (element "circle"
          (num "cx" center_x
            ∷ num "cy" center_y
            ∷ prop "r" "28"
            ∷ prop "fill" "#F8FAFC"
            ∷ prop "stroke" "#CBD5E1"
            ∷ prop "strokeWidth" "1.5"
            ∷ [])
          nothing)
      & (element "text"
          (num "x" center_x
            ∷ num "y" (center_y + 3)
            ∷ prop "textAnchor" "middle"
            ∷ prop "fontSize" "9"
            ∷ prop "fontFamily" "JetBrains Mono, monospace"
            ∷ prop "fontWeight" "bold"
            ∷ prop "fill" "#0077B6"
            ∷ [])
          (say "150 VN")))

  unfoldable pub panel : Ring → Node Event
  panel r = element "div" (prop "className" "flex-1 w-full space-y-4" ∷ []) (
      (element "div" [] (
        (element "div" (prop "className" "flex items-center justify-between mb-2" ∷ []) (
          (element "span"
            (prop "className" "text-xs font-mono font-bold uppercase text-[#64748B]" ∷ [])
            (say "Select Active Chunk"))
          & (element "span" (prop "className" "text-xs font-mono text-[#0077B6]" ∷ [])
              (say "N=3 Quorum Placement"))))
        & (element "div" (prop "className" "grid grid-cols-2 sm:grid-cols-4 gap-2" ∷ []) (
            each sample_chunks (λ chunk.
              let is_selected = same chunk.id (active_chunk r).id in
              element "button"
                (prop "key" chunk.id
                  ∷ on "onClick" (select_chunk chunk.id)
                  ∷ prop "className" (
                      cat "p-2.5 rounded-lg border text-left font-mono transition-all " (
                        (if is_selected
                          then "border-[#00B4D8] bg-[#CAF0F8] text-[#03045E] shadow-2xs font-bold"
                          else "border-[#E2E8F0] bg-white text-[#475569] hover:bg-[#F8FAFC]")))
                  ∷ [])
                ((element "div" (prop "className" "text-xs" ∷ []) (say chunk.name))
                  & (element "div" (prop "className" "text-[10px] text-[#64748B]" ∷ [])
                      ((say (show chunk.size_mb)) & (say " MB")))))))))
      & (element "div"
          (prop "className"
              "p-4 rounded-xl border border-[#E2E8F0] bg-[#F8FAFC] space-y-3 font-mono text-xs"
            ∷ [])
          ((element "div"
              (prop "className" "flex items-center justify-between border-b border-[#E2E8F0] pb-2"
                ∷ [])
              ((element "span" (prop "className" "text-[#64748B]" ∷ []) (say "Active Chunk Key"))
                & (element "span" (prop "className" "font-bold text-[#03045E]" ∷ [])
                    (say (active_chunk r).hash))))
            & (element "div" (prop "className" "grid grid-cols-2 gap-3" ∷ []) (
                (element "div"
                  (prop "className" "p-2.5 rounded-lg bg-white border border-[#CBD5E1]" ∷ [])
                  ((element "span"
                      (prop "className" "text-[10px] text-[#0077B6] font-bold block uppercase" ∷ [])
                      (say "Primary Replica"))
                    & (element "span" (prop "className" "text-sm font-bold text-[#03045E]" ∷ [])
                        (say (active_chunk r).primary_node))
                    & (element "span"
                        (prop "className" "text-[10px] text-[#64748B] block mt-0.5" ∷ [])
                        (say "First successor on ring"))))
                & (element "div"
                    (prop "className" "p-2.5 rounded-lg bg-white border border-[#CBD5E1]" ∷ [])
                    ((element "span"
                        (prop "className" "text-[10px] text-[#00B4D8] font-bold block uppercase"
                          ∷ [])
                        (say "Replicas (N=3)"))
                      & (element "span" (prop "className" "text-sm font-bold text-[#03045E]" ∷ [])
                          (say (join ", " (active_chunk r).replicas)))
                      & (element "span"
                          (prop "className" "text-[10px] text-[#64748B] block mt-0.5" ∷ [])
                          (say "Next distinct physical nodes"))))))
            & (element "div"
                (prop "className" "flex items-center gap-2 text-[11px] text-[#475569] pt-1" ∷ [])
                ((element "Info" (prop "className" "w-4 h-4 text-[#0077B6] shrink-0" ∷ []) nothing)
                  & (element "span" [] (
                      say
                        "150 virtual nodes per physical server ensure balanced distribution with variance < 5%.")))))))

  unfoldable pub view : Ring → Node Event
  unfolding drawing panel
  view r =
      element "div"
        (prop "className"
            "flex flex-col lg:flex-row items-center justify-between gap-6 p-4 sm:p-6 bg-white rounded-2xl border border-[#CBD5E1] shadow-xs"
          ∷ [])
        ((element "div"
            (prop "className"
                "relative flex items-center justify-center w-full max-w-[400px] aspect-square"
              ∷ [])
            ((drawing r)
              & (element "div"
                  (prop "className"
                      "absolute bottom-2 left-2 bg-white/90 backdrop-blur-xs px-2.5 py-1 rounded-md border border-[#E2E8F0] text-[10px] font-mono text-[#64748B]"
                    ∷ [])
                  ((element "span" (prop "className" "text-[#0077B6] font-bold" ∷ [])
                      (say "SHA-256"))
                    & (say " 32-bit Integer Space")))))
          & (panel r))
