-- ===== src/Canvas/Failure/View.antt =====
-- documentation/components/canvas/FailureCanvas.tsx: what it shows.
use cloud_weave.Prelude.{
  ℕ, ◌+◌, ◌-◌, Bool, true, false, ◌&&◌, ◌||◌, [], ◌∷◌, length, ◌==◌, if◌then◌else◌, show, cat,
}
use cloud_weave.Html.{Node, prop, num, fields, on, nothing, say, element, ◌&◌, each, when}
use cloud_weave.Canvas.Failure.{Phase, Status, MeshNode, Mesh, Event, kill_node, reset}

abbrev pub is_idle : Phase → Bool
is_idle Phase.idle = true
is_idle Phase.lost = false
is_idle Phase.failed = false
is_idle Phase.repairing = false
is_idle Phase.recovered = false

abbrev pub is_lost : Phase → Bool
is_lost Phase.idle = false
is_lost Phase.lost = true
is_lost Phase.failed = false
is_lost Phase.repairing = false
is_lost Phase.recovered = false

abbrev pub is_failed : Phase → Bool
is_failed Phase.idle = false
is_failed Phase.lost = false
is_failed Phase.failed = true
is_failed Phase.repairing = false
is_failed Phase.recovered = false

abbrev pub is_repairing : Phase → Bool
is_repairing Phase.idle = false
is_repairing Phase.lost = false
is_repairing Phase.failed = false
is_repairing Phase.repairing = true
is_repairing Phase.recovered = false

abbrev pub is_recovered : Phase → Bool
is_recovered Phase.idle = false
is_recovered Phase.lost = false
is_recovered Phase.failed = false
is_recovered Phase.repairing = false
is_recovered Phase.recovered = true

abbrev pub is_timeout_status : Status → Bool
is_timeout_status Status.healthy = false
is_timeout_status Status.timeout = true
is_timeout_status Status.failed = false
is_timeout_status Status.repairing = false

abbrev pub is_failed_status : Status → Bool
is_failed_status Status.healthy = false
is_failed_status Status.timeout = false
is_failed_status Status.failed = true
is_failed_status Status.repairing = false

abbrev pub is_repairing_status : Status → Bool
is_repairing_status Status.healthy = false
is_repairing_status Status.timeout = false
is_repairing_status Status.failed = false
is_repairing_status Status.repairing = true

abbrev pub coord_x : ℕ
coord_x = 300

abbrev pub coord_y : ℕ
coord_y = 220

unfoldable pub header : Mesh → Node Event
header s =
    element "div"
      (prop "className"
          "w-full flex items-center justify-between border-b border-[#E2E8F0] pb-4 font-mono text-xs"
        ∷ [])
      ((element "div" (prop "className" "flex items-center gap-2" ∷ []) (
          (element "Activity" (prop "className" "w-4 h-4 text-[#0077B6]" ∷ []) nothing)
          & (element "span" (prop "className" "font-bold text-[#03045E]" ∷ [])
              (say "KILL A NODE. WATCH THE CLUSTER RECOVER."))))
        & (element "div" [] (
            if is_idle s.phase
            then element "button"
                (on "onClick" kill_node
                  ∷ prop "className"
                      "flex items-center gap-1.5 px-4 py-2 rounded-lg bg-[#E5484D] text-white font-semibold hover:bg-[#D0383D] shadow-sm transition-colors text-xs cursor-pointer"
                  ∷ [])
                ((element "AlertOctagon" (prop "className" "w-4 h-4" ∷ []) nothing)
                  & (element "span" [] (say "Simulate Node Failure")))
            else element "button"
                (on "onClick" reset
                  ∷ prop "className"
                      "flex items-center gap-1.5 px-4 py-2 rounded-lg border border-[#CBD5E1] bg-white text-[#0077B6] font-semibold hover:bg-[#F1F5F9] transition-colors text-xs shadow-2xs cursor-pointer"
                  ∷ [])
                ((element "RefreshCw" (prop "className" "w-4 h-4 text-[#0077B6]" ∷ []) nothing)
                  & (element "span" [] (say "Reset Cluster"))))))

unfoldable pub link : Mesh → MeshNode → Node Event
link s node =
    let is_dead = is_failed_status node.status || is_timeout_status node.status in
    let is_repair = is_repairing s.phase && ((node.id == 1) || (node.id == 4)) in
    element "line"
      (num "key" node.id
        ∷ num "x1" coord_x
        ∷ num "y1" coord_y
        ∷ num "x2" node.x
        ∷ num "y2" node.y
        ∷ prop "stroke" (if is_dead then "#E5484D" else if is_repair then "#F59E0B" else "#90E0EF")
        ∷ prop "strokeWidth" (if is_repair then "2" else "1.5")
        ∷ prop "strokeDasharray" (if is_dead then "4 4" else "none")
        ∷ [])
      nothing

unfoldable pub mesh_node : Mesh → MeshNode → Node Event
mesh_node s node =
    let is_dead = is_failed_status node.status in
    let is_timeout = is_timeout_status node.status in
    let is_repairing_node = is_repairing_status node.status in
    let is_recovered_target = is_recovered s.phase && (node.id == 4) in
    element "g" (num "key" node.id ∷ []) (
      (element "circle"
        (num "cx" node.x
          ∷ num "cy" node.y
          ∷ prop "r" "28"
          ∷ prop "fill" (
              if is_dead
              then "#FFF1F2"
              else if is_timeout
              then "#FEF3C7"
              else if is_repairing_node
              then "#CAF0F8"
              else if is_recovered_target
              then "#E8F8F0"
              else "#FFFFFF")
          ∷ prop "stroke" (
              if is_dead
              then "#E5484D"
              else if is_timeout
              then "#F59E0B"
              else if is_repairing_node
              then "#0077B6"
              else if is_recovered_target
              then "#22A06B"
              else "#CBD5E1")
          ∷ prop "strokeWidth"
              (if (is_recovered_target || is_repairing_node) || is_dead then "2.5" else "1.5")
          ∷ [])
        nothing)
      & (element "text"
          (num "x" node.x
            ∷ num "y" (node.y - 2)
            ∷ prop "textAnchor" "middle"
            ∷ prop "fontSize" "10"
            ∷ prop "fontFamily" "Inter, sans-serif"
            ∷ prop "fontWeight" "bold"
            ∷ prop "fill" (
                if is_dead
                then "#E5484D"
                else if is_timeout
                then "#F59E0B"
                else if is_repairing_node
                then "#0077B6"
                else if is_recovered_target
                then "#22A06B"
                else "#03045E")
            ∷ [])
          ((say "N") & (say (show node.id))))
      & (element "text"
          (num "x" node.x
            ∷ num "y" (node.y + 10)
            ∷ prop "textAnchor" "middle"
            ∷ prop "fontSize" "8"
            ∷ prop "fontFamily" "Inter, sans-serif"
            ∷ prop "fontWeight" "medium"
            ∷ prop "fill" (if is_dead then "#E5484D" else "#64748B")
            ∷ [])
          (say (if is_dead then "OFFLINE" else cat (show (length node.chunks)) " chunks")))
      & (element "circle"
          (num "cx" (node.x + 20)
            ∷ num "cy" (node.y - 20)
            ∷ prop "r" "4.5"
            ∷ prop "fill"
                (if is_dead then "#E5484D" else if is_timeout then "#F59E0B" else "#22A06B")
            ∷ [])
          nothing))

unfoldable pub stream : Node Event
stream = element "g" [] (
    (element "line"
      (prop "x1" "250"
        ∷ prop "y1" "100"
        ∷ prop "x2" "500"
        ∷ prop "y2" "220"
        ∷ prop "stroke" "#F59E0B"
        ∷ prop "strokeWidth" "2.5"
        ∷ prop "strokeDasharray" "4 4"
        ∷ [])
      nothing)
    & (element "motion.circle"
        (prop "r" "6"
          ∷ prop "fill" "#F59E0B"
          ∷ fields "animate" (("cx", "[250, 500]") ∷ ("cy", "[100, 220]") ∷ [])
          ∷ fields "transition"
              (("repeat", "Infinity") ∷ ("duration", "1.0") ∷ ("ease", "easeInOut") ∷ [])
          ∷ [])
        nothing))

unfoldable pub in_flight : Node Event
in_flight =
    element "motion.div"
      (fields "initial" (("left", "250") ∷ ("top", "100") ∷ ("opacity", "0") ∷ [])
        ∷ fields "animate" (("left", "500") ∷ ("top", "220") ∷ ("opacity", "1") ∷ [])
        ∷ fields "transition"
            (("repeat", "Infinity") ∷ ("duration", "1.2") ∷ ("ease", "easeInOut") ∷ [])
        ∷ prop "className"
            "absolute z-30 -translate-x-1/2 -translate-y-1/2 px-2.5 py-1 rounded-lg bg-[#CAF0F8] border border-[#0077B6]/50 text-[9px] font-mono font-bold text-[#0077B6] shadow-sm"
        ∷ [])
      (say "Chunk C (Replica)")

unfoldable pub mesh : Mesh → Node Event
unfolding link mesh_node stream in_flight
mesh s = element "div" (prop "className" "w-full max-w-2xl h-[420px] relative" ∷ []) (
    (element "svg" (prop "viewBox" "0 0 600 440" ∷ prop "className" "w-full h-full" ∷ []) (
      (element "circle"
        (num "cx" coord_x
          ∷ num "cy" coord_y
          ∷ prop "r" "24"
          ∷ prop "fill" "#CAF0F8"
          ∷ prop "stroke" "#0077B6"
          ∷ prop "strokeWidth" "1.5"
          ∷ [])
        nothing)
      & (element "text"
          (num "x" coord_x
            ∷ num "y" (coord_y + 4)
            ∷ prop "textAnchor" "middle"
            ∷ prop "fontSize" "9"
            ∷ prop "fontFamily" "Inter, sans-serif"
            ∷ prop "fontWeight" "bold"
            ∷ prop "fill" "#03045E"
            ∷ [])
          (say "COORD"))
      & (each s.nodes_state (link s))
      & (when (is_repairing s.phase) stream)
      & (each s.nodes_state (mesh_node s))))
    & (when (is_repairing s.phase) in_flight))

unfoldable pub notice : Mesh → Node Event
notice s =
    element "div"
      (prop "className"
          "w-full max-w-xl text-center py-2.5 px-4 rounded-full border border-[#CBD5E1] bg-[#F8FAFC] font-mono text-xs text-[#03045E] shadow-2xs"
        ∷ [])
      ((element "span"
          (prop "className" (
              cat "inline-block h-2 w-2 rounded-full mr-2 " (
                (if (is_failed s.phase) || (is_lost s.phase)
                  then "bg-[#E5484D]"
                  else if is_repairing s.phase
                  then "bg-[#F59E0B] animate-ping"
                  else "bg-[#22A06B]")))
            ∷ [])
          nothing)
        & (element "span" (prop "className" "font-medium" ∷ []) (say s.status_message)))

unfoldable pub view : Mesh → Node Event
unfolding header mesh notice
view s =
    element "div"
      (prop "className"
          "flex flex-col items-center justify-between w-full min-h-[620px] bg-white rounded-2xl border border-[#E2E8F0] shadow-sm p-4 sm:p-8 select-none relative overflow-hidden font-sans"
        ∷ [])
      ((header s) & (mesh s) & (notice s))
