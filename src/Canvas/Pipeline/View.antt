-- ===== src/Canvas/Pipeline/View.antt =====
-- documentation/components/canvas/Pipeline3DScroll.tsx: what it shows.
use cloud_weave.Prelude.{
  String, false, none, some, [], ◌∷◌, length, ◌==◌, if◌then◌else◌, show, cat, until, beyond,
}
use cloud_weave.Html.{
  Node, prop, num, flag, fields, on, nothing, say, element, ◌&◌, each, each_from, when,
}
use cloud_weave.Canvas.Pipeline.Stages.{PipelineStage, stages}
use cloud_weave.Canvas.Pipeline.{Walk, Event, choose, previous, next, toggle_code, current_stage}

-- `name.split('. ')[1]`
abbrev pub name_of : PipelineStage → String
name_of stage = elim (beyond ". " stage.name) [ none ↦ "" | some rest ↦ until ". " rest ]

unfoldable pub navigator : Walk → Node Event
navigator s =
    element "div"
      (prop "className" "grid grid-cols-2 sm:grid-cols-3 lg:grid-cols-6 gap-2 w-full" ∷ [])
      (each stages (λ stage.
        let is_current = stage.id == s.active_stage_id in
        element "button"
          (num "key" stage.id
            ∷ on "onClick" (choose stage.id)
            ∷ prop "className" (
                cat "p-3 rounded-lg border text-left transition-all cursor-pointer font-mono " (
                  (if is_current
                    then "bg-[#19191C] border-[#7A1F2B] text-[#EDE8DF] shadow-xs ring-1 ring-[#7A1F2B]"
                    else "bg-[#000000] border-[#26262B] text-[#8B8B8F] hover:border-[#34343A] hover:text-[#EDE8DF]")))
            ∷ [])
          ((element "div" (prop "className" "flex items-center justify-between text-[11px]" ∷ []) (
              (element "span"
                (prop "className"
                    (if is_current then "text-[#EDE8DF] font-bold" else "text-[#8B8B8F]")
                  ∷ [])
                ((say "Stage 0") & (say (show stage.id))))
              & (when is_current (
                  element "span" (prop "className" "w-1.5 h-1.5 rounded-full bg-[#7A1F2B]" ∷ [])
                    nothing))))
            & (element "div" (prop "className" "text-xs font-semibold mt-1 truncate" ∷ [])
                (say (name_of stage))))))

unfoldable pub drawing : Walk → Node Event
drawing s =
    element "div"
      (prop "className"
          "lg:col-span-5 flex flex-col h-[380px] lg:h-auto min-h-[380px] bg-[#19191C] border border-[#26262B] rounded-xl overflow-hidden relative"
        ∷ [])
      ((if s.prefers_reduced_motion
          then element "div"
              (prop "className"
                  "w-full h-full flex flex-col items-center justify-center p-6 text-center bg-[#000000]"
                ∷ [])
              ((element "span" (prop "className" "text-sm font-serif font-bold text-[#EDE8DF]" ∷ [])
                  (say (current_stage s).name))
                & (element "span" (prop "className" "text-xs font-mono text-[#8B8B8F] mt-1" ∷ [])
                    (say (current_stage s).subtitle)))
          else element "Canvas"
              (fields "camera" (("position", "[0, 0, 4.2]") ∷ ("fov", "45") ∷ []) ∷ [])
              ((element "color" (prop "attach" "background" ∷ prop "args" "['#000000']" ∷ [])
                  nothing)
                & (element "PipelineStage3DVisual" (num "stageId" s.active_stage_id ∷ []) nothing)
                & (element "OrbitControls" (flag "enableZoom" false ∷ flag "enablePan" false ∷ [])
                    nothing)))
        & (element "div"
            (prop "className"
                "absolute bottom-3 left-3 right-3 flex items-center justify-between font-mono text-[10px] text-[#8B8B8F] bg-[#000000]/90 px-3 py-1.5 rounded border border-[#26262B]"
              ∷ [])
            ((element "span" [] (say "Concept-Accurate 3D Model"))
              & (element "span" (prop "className" "text-[#EDE8DF] font-semibold" ∷ [])
                  ((say "Stage ") & (say (show s.active_stage_id)) & (say " of 6"))))))

unfoldable pub narrative : Walk → Node Event
narrative s =
    element "div"
      (prop "className"
          "lg:col-span-7 flex flex-col justify-between bg-[#19191C] border border-[#26262B] rounded-xl p-6 space-y-6"
        ∷ [])
      ((element "div" (prop "className" "space-y-4" ∷ []) (
          (element "div" (prop "className" "space-y-1" ∷ []) (
            (element "div"
              (prop "className"
                  "inline-flex items-center gap-1.5 text-xs font-mono text-[#A6A9AE] font-semibold"
                ∷ [])
              ((element "span" [] ((say "STAGE 0") & (say (show (current_stage s).id))))
                & (element "span" [] (say "·"))
                & (element "span" [] (say (current_stage s).subtitle))))
            & (element "h2" (prop "className" "text-2xl font-serif font-bold text-[#EDE8DF]" ∷ [])
                (say (current_stage s).name))))
          & (element "p"
              (prop "className" "text-sm font-sans text-[#EDE8DF]/90 leading-relaxed" ∷ [])
              (say (current_stage s).description))
          & (element "div" (prop "className" "space-y-2 pt-2" ∷ []) (
              each_from 0 (current_stage s).details (λ detail idx.
                element "div"
                  (num "key" idx
                    ∷ prop "className" "flex items-start gap-2.5 text-xs font-mono text-[#8B8B8F]"
                    ∷ [])
                  ((element "CheckCircle2"
                      (prop "className" "w-3.5 h-3.5 text-[#7A1F2B] shrink-0 mt-0.5" ∷ []) nothing)
                    & (element "span" [] (say detail))))))))
        & (element "div"
            (prop "className" "border border-[#26262B] rounded-lg overflow-hidden bg-[#000000]"
              ∷ [])
            ((element "button"
                (on "onClick" toggle_code
                  ∷ prop "className"
                      "w-full px-4 py-2.5 flex items-center justify-between text-xs font-mono text-[#EDE8DF] hover:bg-[#19191C] transition-colors cursor-pointer border-b border-[#26262B]"
                  ∷ [])
                ((element "div" (prop "className" "flex items-center gap-2" ∷ []) (
                    (element "Code" (prop "className" "w-3.5 h-3.5 text-[#A6A9AE]" ∷ []) nothing)
                    & (element "span" (prop "className" "font-semibold" ∷ [])
                        (say (current_stage s).code_file))))
                  & (element "span" (prop "className" "text-[11px] text-[#8B8B8F]" ∷ [])
                      (say (if s.show_code then "Hide Code" else "Read Go Code")))))
              & (when s.show_code (
                  element "div" (prop "className" "p-3 text-xs" ∷ []) (
                    element "CodeBlock"
                      (prop "code" (current_stage s).code_snippet
                        ∷ prop "language" "go"
                        ∷ prop "filename" (current_stage s).code_file
                        ∷ [])
                      nothing)))))
        & (element "div"
            (prop "className"
                "flex items-center justify-between border-t border-[#26262B] pt-4 font-mono text-xs"
              ∷ [])
            ((element "button"
                (flag "disabled" (s.active_stage_id == 1)
                  ∷ on "onClick" previous
                  ∷ prop "className"
                      "flex items-center gap-1.5 px-3 py-1.5 rounded border border-[#26262B] text-[#8B8B8F] hover:text-[#EDE8DF] hover:border-[#34343A] disabled:opacity-30 disabled:cursor-not-allowed transition-colors cursor-pointer"
                  ∷ [])
                ((element "ChevronLeft" (prop "className" "w-3.5 h-3.5" ∷ []) nothing)
                  & (element "span" [] (say "Previous Stage"))))
              & (element "span" (prop "className" "text-[11px] text-[#8B8B8F]" ∷ [])
                  ((say (show s.active_stage_id)) & (say " / ") & (say (show (length stages)))))
              & (element "button"
                  (flag "disabled" (s.active_stage_id == (length stages))
                    ∷ on "onClick" next
                    ∷ prop "className"
                        "flex items-center gap-1.5 px-3 py-1.5 rounded bg-[#7A1F2B] text-[#EDE8DF] font-semibold hover:bg-[#912735] disabled:opacity-30 disabled:cursor-not-allowed transition-colors cursor-pointer"
                    ∷ [])
                  ((element "span" [] (say "Next Stage"))
                    & (element "ChevronRight" (prop "className" "w-3.5 h-3.5 stroke-[2.5]" ∷ [])
                        nothing))))))

unfoldable pub view : Walk → Node Event
unfolding navigator drawing narrative
view s = element "div" (prop "className" "w-full flex flex-col space-y-8 font-sans" ∷ []) (
    (navigator s)
    & (element "div" (prop "className" "grid grid-cols-1 lg:grid-cols-12 gap-6 items-stretch" ∷ [])
        ((drawing s) & (narrative s))))
