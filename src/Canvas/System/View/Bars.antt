-- ===== src/Canvas/System/View/Bars.antt =====
-- documentation/components/canvas/MasterSystemCanvas.tsx: the toolbar above the drawing and the strip
-- below it.
use cloud_weave.Prelude.{String, [], ◌∷◌, ltb, ◌==◌, if◌then◌else◌, show, cat}
use cloud_weave.Html.{Node, prop, num, on, on_number, nothing, say, element, ◌&◌, each, when}
use cloud_weave.Canvas.System.{
  steps_list, Player, Event, go_to, toggle_playing, next_step, reset, set_speed, description_of,
  speed_text,
}

unfoldable pub header : Player → String → Node Event
header p label =
    element "div"
      (prop "className"
          "flex flex-col sm:flex-row sm:items-center justify-between px-5 py-4 border-b border-[#E2E8F0] bg-[#F8FAFC] gap-3"
        ∷ [])
      ((element "div" [] (
          (element "div" (prop "className" "flex items-center gap-2" ∷ []) (
            (element "span"
              (prop "className" "flex h-2 w-2 rounded-full bg-[#00B4D8] animate-pulse" ∷ [])
              nothing)
            & (element "span"
                (prop "className"
                    "text-[11px] font-mono font-bold uppercase tracking-wider text-[#0077B6]"
                  ∷ [])
                ((say "STEP ") & (say (show p.step)) & (say " OF 5 · ") & (say label)))))
          & (element "h3"
              (prop "className" "text-base sm:text-lg font-bold text-[#03045E] mt-0.5" ∷ [])
              ((when (p.step == 1) (say "1. S3 Client Request Ingestion"))
                & (when (p.step == 2) (say "2. FastCDC Content-Defined Chunking"))
                & (when (p.step == 3) (say "3. Consistent Hash Ring Placement"))
                & (when (p.step == 4) (say "4. Multi-Node Mesh Replication (N=3)"))
                & (when (p.step == 5) (say "5. Write Quorum (W=2) & WAL Commit"))))))
        & (element "div"
            (prop "className" "flex items-center gap-1.5 font-mono text-xs overflow-x-auto" ∷ [])
            (each steps_list (λ s.
              let is_curr = p.step == s.num in
              let is_done = ltb s.num p.step in
              element "button"
                (num "key" s.num
                  ∷ on "onClick" (go_to s.num)
                  ∷ prop "className" (
                      cat
                        "flex items-center gap-1.5 px-2.5 py-1.5 rounded-lg font-bold transition-all cursor-pointer "
                        ((if is_curr
                          then "bg-[#0077B6] text-white shadow-xs"
                          else if is_done
                          then "bg-[#CAF0F8] text-[#0077B6] hover:bg-[#B3E8F5]"
                          else "bg-white border border-[#CBD5E1] text-[#64748B] hover:bg-[#F1F5F9]")))
                  ∷ [])
                ((element "span" [] (
                    if is_done
                    then element "Check" (prop "className" "w-3 h-3 inline" ∷ []) nothing
                    else say (show s.num)))
                  & (element "span" (prop "className" "hidden md:inline" ∷ []) (say s.label)))))))

unfoldable pub controls : Player → Node Event
controls p =
    element "div"
      (prop "className"
          "flex flex-col sm:flex-row items-center justify-between px-5 py-3.5 border-t border-[#E2E8F0] bg-[#F8FAFC] gap-3 font-mono text-xs"
        ∷ [])
      ((element "div"
          (prop "className" "flex items-center gap-2 text-[#03045E] text-xs font-semibold" ∷ [])
          ((element "span"
              (prop "className"
                  "px-2 py-0.5 rounded bg-[#CAF0F8] text-[#0077B6] font-bold text-[10px]"
                ∷ [])
              (say "EVENT"))
            & (element "span" [] (say (description_of p.step)))))
        & (element "div" (prop "className" "flex items-center gap-2 shrink-0" ∷ []) (
            (element "button"
              (on "onClick" toggle_playing
                ∷ prop "className"
                    "flex items-center gap-1.5 px-3 py-1.5 rounded-lg bg-[#0077B6] text-white hover:bg-[#005F92] transition-colors shadow-xs text-xs font-bold cursor-pointer"
                ∷ [])
              ((if p.is_playing
                  then element "Pause" (prop "className" "w-3.5 h-3.5 fill-current" ∷ []) nothing
                  else element "Play" (prop "className" "w-3.5 h-3.5 fill-current" ∷ []) nothing)
                & (element "span" [] (say (if p.is_playing then "Pause" else "Play")))))
            & (element "button"
                (on "onClick" next_step
                  ∷ prop "className"
                      "px-3 py-1.5 rounded-lg border border-[#CBD5E1] bg-white text-[#03045E] hover:bg-[#F1F5F9] font-bold transition-colors cursor-pointer"
                  ∷ [])
                (say "Step →"))
            & (element "button"
                (on "onClick" reset
                  ∷ prop "className"
                      "p-1.5 rounded-lg border border-[#CBD5E1] bg-white text-[#64748B] hover:text-[#03045E] hover:bg-[#F1F5F9] transition-colors cursor-pointer"
                  ∷ prop "title" "Reset"
                  ∷ [])
                (element "RotateCcw" (prop "className" "w-3.5 h-3.5" ∷ []) nothing))
            & (element "div"
                (prop "className" "flex items-center gap-1.5 pl-2 text-[10px] text-[#64748B]" ∷ [])
                ((element "Gauge" (prop "className" "w-3.5 h-3.5 text-[#0077B6]" ∷ []) nothing)
                  & (element "span" (prop "className" "font-bold text-[#0077B6]" ∷ [])
                      ((say (speed_text p.speed)) & (say "x")))
                  & (element "input"
                      (prop "type" "range"
                        ∷ prop "min" "0.5"
                        ∷ prop "max" "2"
                        ∷ prop "step" "0.5"
                        ∷ prop "value" (speed_text p.speed)
                        ∷ on_number "onChange" set_speed
                        ∷ prop "className"
                            "w-14 h-1.5 bg-[#CBD5E1] rounded-lg appearance-none cursor-pointer accent-[#0077B6]"
                        ∷ [])
                      nothing))))))
