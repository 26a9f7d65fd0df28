-- ===== src/Canvas/System/View/Upload.antt =====
-- documentation/components/canvas/MasterSystemCanvas.tsx: the upper part of the drawing, from the
-- request to the chunks. A quotient of numbers is kept as the text of its terms.
use cloud_weave.Prelude.{◌+◌, ◌*◌, [], ◌∷◌, ◌==◌, if◌then◌else◌, show, cat, concat, same}
use cloud_weave.Html.{Node, prop, fields, on, nothing, say, element, ◌&◌, each_from, when}
use cloud_weave.Canvas.System.{chunks_data, Player, Event, select_chunk, speed_text}

unfoldable pub ingress : Player → Node Event
ingress p =
    (element "defs" [] (
      (element "filter"
        (prop "id" "cardShadow"
          ∷ prop "x" "-10%"
          ∷ prop "y" "-10%"
          ∷ prop "width" "120%"
          ∷ prop "height" "130%"
          ∷ [])
        (element "feDropShadow"
          (prop "dx" "0"
            ∷ prop "dy" "2"
            ∷ prop "stdDeviation" "3"
            ∷ prop "floodOpacity" "0.08"
            ∷ prop "floodColor" "#03045E"
            ∷ [])
          nothing))
      & (element "filter"
          (prop "id" "activeGlow"
            ∷ prop "x" "-20%"
            ∷ prop "y" "-20%"
            ∷ prop "width" "140%"
            ∷ prop "height" "140%"
            ∷ [])
          (element "feDropShadow"
            (prop "dx" "0"
              ∷ prop "dy" "0"
              ∷ prop "stdDeviation" "4"
              ∷ prop "floodOpacity" "0.35"
              ∷ prop "floodColor" "#00B4D8"
              ∷ [])
            nothing))))
    & (element "g" (prop "transform" "translate(370, 15)" ∷ []) (
        (element "rect"
          (prop "width" "160"
            ∷ prop "height" "44"
            ∷ prop "rx" "10"
            ∷ prop "fill" "#FFFFFF"
            ∷ prop "stroke" "#0077B6"
            ∷ prop "strokeWidth" "1.5"
            ∷ prop "filter" "url(#cardShadow)"
            ∷ [])
          nothing)
        & (element "circle"
            (prop "cx" "22" ∷ prop "cy" "22" ∷ prop "r" "12" ∷ prop "fill" "#CAF0F8" ∷ []) nothing)
        & (element "polygon" (prop "points" "19,16 27,22 19,28" ∷ prop "fill" "#0077B6" ∷ [])
            nothing)
        & (element "text"
            (prop "x" "42"
              ∷ prop "y" "20"
              ∷ prop "fontSize" "11"
              ∷ prop "fontFamily" "Inter, sans-serif"
              ∷ prop "fontWeight" "bold"
              ∷ prop "fill" "#03045E"
              ∷ [])
            (say "video.mp4"))
        & (element "text"
            (prop "x" "42"
              ∷ prop "y" "34"
              ∷ prop "fontSize" "9"
              ∷ prop "fontFamily" "JetBrains Mono, monospace"
              ∷ prop "fill" "#64748B"
              ∷ [])
            (say "2.4 GB Stream (S3 PUT)"))))
    & (element "line"
        (prop "x1" "450"
          ∷ prop "y1" "59"
          ∷ prop "x2" "450"
          ∷ prop "y2" "80"
          ∷ prop "stroke" "#00B4D8"
          ∷ prop "strokeWidth" "2"
          ∷ prop "strokeDasharray" "3 3"
          ∷ [])
        nothing)
    & (when (p.step == 1) (
        element "motion.circle"
          (prop "r" "5"
            ∷ prop "fill" "#00B4D8"
            ∷ fields "animate" (("cx", "[450, 450]") ∷ ("cy", "[59, 80]") ∷ [])
            ∷ fields "transition" (
                ("repeat", "Infinity")
                ∷ ("duration", (concat ("0.8" ∷ " / " ∷ (speed_text p.speed) ∷ [])))
                ∷ ("ease", "linear")
                ∷ [])
            ∷ [])
          nothing))
    & (element "g" (prop "transform" "translate(350, 80)" ∷ []) (
        (element "rect"
          (prop "width" "200"
            ∷ prop "height" "30"
            ∷ prop "rx" "8"
            ∷ prop "fill" "#CAF0F8"
            ∷ prop "stroke" "#00B4D8"
            ∷ prop "strokeWidth" "1.5"
            ∷ [])
          nothing)
        & (element "text"
            (prop "x" "100"
              ∷ prop "y" "19"
              ∷ prop "textAnchor" "middle"
              ∷ prop "fontSize" "10"
              ∷ prop "fontFamily" "JetBrains Mono, monospace"
              ∷ prop "fontWeight" "bold"
              ∷ prop "fill" "#0077B6"
              ∷ [])
            (say "FastCDC Gear Hash (16-256 KB)"))))
    & (element "line"
        (prop "x1" "450"
          ∷ prop "y1" "110"
          ∷ prop "x2" "450"
          ∷ prop "y2" "128"
          ∷ prop "stroke" "#00B4D8"
          ∷ prop "strokeWidth" "2"
          ∷ prop "strokeDasharray" "3 3"
          ∷ [])
        nothing)

unfoldable pub chunk_row : Player → Node Event
chunk_row p =
    (each_from 0 chunks_data (λ chunk idx.
      let is_selected = same p.selected_chunk_id chunk.id in
      element "g"
        (prop "key" chunk.id
          ∷ prop "transform"
              (cat "translate(" (cat (show (175 + idx * 145)) (cat ", " (cat (show 128) ")"))))
          ∷ prop "className" "cursor-pointer"
          ∷ on "onClick" (select_chunk chunk.id)
          ∷ [])
        ((element "rect"
            (prop "width" "120"
              ∷ prop "height" "44"
              ∷ prop "rx" "8"
              ∷ prop "fill" (if is_selected then "#CAF0F8" else "#FFFFFF")
              ∷ prop "stroke" (if is_selected then "#0077B6" else "#CBD5E1")
              ∷ prop "strokeWidth" (if is_selected then "2" else "1.5")
              ∷ prop "filter" (if is_selected then "url(#activeGlow)" else "url(#cardShadow)")
              ∷ [])
            nothing)
          & (element "text"
              (prop "x" "10"
                ∷ prop "y" "18"
                ∷ prop "fontSize" "10"
                ∷ prop "fontFamily" "Inter, sans-serif"
                ∷ prop "fontWeight" "bold"
                ∷ prop "fill" "#03045E"
                ∷ [])
              (say chunk.name))
          & (element "text"
              (prop "x" "75"
                ∷ prop "y" "18"
                ∷ prop "fontSize" "9"
                ∷ prop "fontFamily" "JetBrains Mono, monospace"
                ∷ prop "fill" "#64748B"
                ∷ [])
              ((say (show chunk.size_mb)) & (say " MB")))
          & (element "text"
              (prop "x" "10"
                ∷ prop "y" "34"
                ∷ prop "fontSize" "8.5"
                ∷ prop "fontFamily" "JetBrains Mono, monospace"
                ∷ prop "fill" "#0077B6"
                ∷ [])
              (say chunk.hash_short))
          & (when is_selected (
              element "circle"
                (prop "cx" "108" ∷ prop "cy" "14" ∷ prop "r" "4" ∷ prop "fill" "#0077B6" ∷ [])
                nothing)))))
    & (element "line"
        (prop "x1" "450"
          ∷ prop "y1" "172"
          ∷ prop "x2" "450"
          ∷ prop "y2" "210"
          ∷ prop "stroke" "#00B4D8"
          ∷ prop "strokeWidth" "2"
          ∷ prop "strokeDasharray" "3 3"
          ∷ [])
        nothing)
