-- ===== src/Canvas/System/View/Nodes.antt =====
-- documentation/components/canvas/MasterSystemCanvas.tsx: the lower part of the drawing, the nodes with
-- what flows to and from them.
use cloud_weave.Prelude.{◌-◌, ◌&&◌, ◌||◌, [], ◌∷◌, leb, ◌==◌, if◌then◌else◌, show, cat, concat}
use cloud_weave.Html.{Node, prop, num, fields, on, nothing, say, element, ◌&◌, each, when}
use cloud_weave.Canvas.System.{
  NodeCoord, node_coords, Player, active_chunk, Event, inspect, cx, cy, speed_text, has,
}

unfoldable pub flow : Player → NodeCoord → Node Event
flow p node =
    let is_primary = node.id == (active_chunk p).primary_node in
    let is_replica = has (active_chunk p).replicas node.id in
    let is_target = is_primary || (leb 4 p.step && is_replica) in
    element "g" (prop "key" (cat "mesh-flow-" ((show node.id))) ∷ []) (
      (element "line"
        (num "x1" cx
          ∷ num "y1" cy
          ∷ num "x2" node.x
          ∷ num "y2" node.y
          ∷ prop "stroke"
              (if is_target then if is_primary then "#0077B6" else "#00B4D8" else "#E2E8F0")
          ∷ prop "strokeWidth" (if is_target then "2.5" else "1")
          ∷ prop "strokeDasharray" (if is_target then "4 4" else "2 2")
          ∷ [])
        nothing)
      & (when is_target (
          element "motion.circle"
            (prop "r" "5"
              ∷ prop "fill" (if is_primary then "#0077B6" else "#00B4D8")
              ∷ fields "animate" (
                  ("cx", (concat ("[" ∷ (show cx) ∷ ", " ∷ (show node.x) ∷ "]" ∷ [])))
                  ∷ ("cy", (concat ("[" ∷ (show cy) ∷ ", " ∷ (show node.y) ∷ "]" ∷ [])))
                  ∷ [])
              ∷ fields "transition" (
                  ("repeat", "Infinity")
                  ∷ ("duration", (concat ("1.1" ∷ " / " ∷ (speed_text p.speed) ∷ [])))
                  ∷ ("ease", "easeInOut")
                  ∷ [])
              ∷ [])
            nothing)))

unfoldable pub flows : Player → Node Event
unfolding flow
flows p =
    (when (leb 3 p.step) (each node_coords (flow p)))
    & (when (p.step == 5) (
        element "g" [] (
          (element "motion.circle"
            (prop "r" "6"
              ∷ prop "fill" "#22A06B"
              ∷ fields "animate" (
                  ("cx", (concat ("[" ∷ "550" ∷ ", " ∷ (show cx) ∷ "]" ∷ [])))
                  ∷ ("cy", (concat ("[" ∷ "440" ∷ ", " ∷ (show cy) ∷ "]" ∷ [])))
                  ∷ [])
              ∷ fields "transition" (
                  ("repeat", "Infinity")
                  ∷ ("duration", (concat ("0.9" ∷ " / " ∷ (speed_text p.speed) ∷ [])))
                  ∷ ("ease", "easeOut")
                  ∷ [])
              ∷ [])
            nothing)
          & (element "motion.circle"
              (prop "r" "6"
                ∷ prop "fill" "#22A06B"
                ∷ fields "animate" (
                    ("cx", (concat ("[" ∷ "450" ∷ ", " ∷ (show cx) ∷ "]" ∷ [])))
                    ∷ ("cy", (concat ("[" ∷ "195" ∷ ", " ∷ (show cy) ∷ "]" ∷ [])))
                    ∷ [])
                ∷ fields "transition" (
                    ("repeat", "Infinity")
                    ∷ ("duration", (concat ("0.9" ∷ " / " ∷ (speed_text p.speed) ∷ [])))
                    ∷ ("ease", "easeOut")
                    ∷ [])
                ∷ [])
              nothing))))

unfoldable pub node_card : Player → NodeCoord → Node Event
node_card p node =
    let is_primary = (node.id == (active_chunk p).primary_node) && leb 3 p.step in
    let is_replica = has (active_chunk p).replicas node.id && leb 4 p.step in
    let is_acked = (p.step == 5) && (is_primary || is_replica) in
    element "g"
      (num "key" node.id
        ∷ prop "transform"
            (cat "translate(" (cat (show (node.x - 58)) (cat ", " (cat (show (node.y - 28)) ")"))))
        ∷ prop "className" "cursor-pointer"
        ∷ on "onClick" (inspect node.id)
        ∷ [])
      ((element "rect"
          (prop "width" "116"
            ∷ prop "height" "56"
            ∷ prop "rx" "10"
            ∷ prop "fill"
                (if is_primary then "#CAF0F8" else if is_replica then "#E8F8F0" else "#FFFFFF")
            ∷ prop "stroke"
                (if is_primary then "#0077B6" else if is_replica then "#22A06B" else "#CBD5E1")
            ∷ prop "strokeWidth" (if is_primary || is_replica then "2.5" else "1.5")
            ∷ prop "filter" "url(#cardShadow)"
            ∷ [])
          nothing)
        & (element "text"
            (prop "x" "10"
              ∷ prop "y" "18"
              ∷ prop "fontSize" "11"
              ∷ prop "fontFamily" "Inter, sans-serif"
              ∷ prop "fontWeight" "bold"
              ∷ prop "fill" "#03045E"
              ∷ [])
            (say node.name))
        & (element "circle"
            (prop "cx" "102" ∷ prop "cy" "14" ∷ prop "r" "4" ∷ prop "fill" "#22A06B" ∷ []) nothing)
        & (element "text"
            (prop "x" "10"
              ∷ prop "y" "32"
              ∷ prop "fontSize" "8.5"
              ∷ prop "fontFamily" "JetBrains Mono, monospace"
              ∷ prop "fontWeight" "bold"
              ∷ prop "fill"
                  (if is_primary then "#0077B6" else if is_replica then "#22A06B" else "#64748B")
              ∷ [])
            (say (
              if is_primary
              then "● Primary Node"
              else if is_replica
              then "● Replica Node"
              else cat (show node.chunks) " chunks stored")))
        & (element "rect"
            (prop "x" "10"
              ∷ prop "y" "40"
              ∷ prop "width" "96"
              ∷ prop "height" "4"
              ∷ prop "rx" "2"
              ∷ prop "fill" "#E2E8F0"
              ∷ [])
            nothing)
        & (element "rect"
            (prop "x" "10"
              ∷ prop "y" "40"
              ∷ num "width" node.bar_w
              ∷ prop "height" "4"
              ∷ prop "rx" "2"
              ∷ prop "fill"
                  (if is_primary then "#0077B6" else if is_replica then "#22A06B" else "#94A3B8")
              ∷ [])
            nothing)
        & (when is_acked (
            element "g" (prop "transform" "translate(98, -6)" ∷ []) (
              (element "circle"
                (prop "cx" "8" ∷ prop "cy" "8" ∷ prop "r" "9" ∷ prop "fill" "#22A06B" ∷ []) nothing)
              & (element "polyline"
                  (prop "points" "5,8 7.5,11 11.5,5"
                    ∷ prop "fill" "none"
                    ∷ prop "stroke" "#FFFFFF"
                    ∷ prop "strokeWidth" "2"
                    ∷ prop "strokeLinecap" "round"
                    ∷ prop "strokeLinejoin" "round"
                    ∷ [])
                  nothing)))))

unfoldable pub node_cards : Player → Node Event
unfolding node_card
node_cards p = each node_coords (node_card p)

unfoldable pub banner : Player → Node Event
banner p = when (p.step == 5) (
    element "g" (prop "transform" "translate(250, 500)" ∷ []) (
      (element "rect"
        (prop "width" "400"
          ∷ prop "height" "34"
          ∷ prop "rx" "17"
          ∷ prop "fill" "#E8F8F0"
          ∷ prop "stroke" "#22A06B"
          ∷ prop "strokeWidth" "1.5"
          ∷ prop "filter" "url(#cardShadow)"
          ∷ [])
        nothing)
      & (element "circle"
          (prop "cx" "20" ∷ prop "cy" "17" ∷ prop "r" "9" ∷ prop "fill" "#22A06B" ∷ []) nothing)
      & (element "polyline"
          (prop "points" "17,17 19.5,20 23.5,14"
            ∷ prop "fill" "none"
            ∷ prop "stroke" "#FFFFFF"
            ∷ prop "strokeWidth" "2"
            ∷ prop "strokeLinecap" "round"
            ∷ prop "strokeLinejoin" "round"
            ∷ [])
          nothing)
      & (element "text"
          (prop "x" "40"
            ∷ prop "y" "21"
            ∷ prop "fontSize" "10.5"
            ∷ prop "fontFamily" "JetBrains Mono, monospace"
            ∷ prop "fontWeight" "bold"
            ∷ prop "fill" "#22A06B"
            ∷ [])
          (say "QUORUM COMMITTED (W=2/2 ACKs) - fsync OK"))))
