-- ===== src/Pages/Architecture.antt =====
-- documentation/components/architecture/ArchitectureMap.tsx: the parts of the storage system. The state, and an
-- event, is the part chosen.
pub mod Parts
use cloud_weave.Prelude.{
  Option, get_elem?, ℕ, zero, suc, ◌+◌, ◌-◌, ◌*◌, String, Bool, true, false, not, ◌&&◌, ◌||◌,
  Option, none, some, List, [], ◌∷◌, map, length, find?, get_or, get_elem?, leb, ltb, ◌==◌,
  if◌then◌else◌, show, cat, concat, join, same,
}
use cloud_weave.Html.{
  Node, prop, num, flag, fields, on, nothing, say, element, ◌&◌, each, each_from, when,
}
use cloud_weave.Pages.Architecture.Parts.{ArchComponent, arch_components}

-- archComponents[2], which is chosen at first.
unfoldable pub initial : Option ArchComponent
unfolding arch_components
initial = get_elem? arch_components 2

unfoldable pub diagram : ArchComponent → Node ArchComponent
unfolding arch_components
diagram selected =
    element "div" (prop "className" "lg:col-span-7 space-y-3 font-mono text-xs" ∷ []) (
      each_from 0 arch_components (λ comp idx.
        let is_selected = same selected.id comp.id in
        element "React.Fragment" (prop "key" comp.id ∷ []) (
          (element "div"
            (on "onClick" comp
              ∷ prop "className" (
                  cat "p-4 rounded-xl border cursor-pointer transition-all " (
                    (if is_selected
                      then "border-[#00B4D8] bg-[#CAF0F8] shadow-md ring-2 ring-[#00B4D8]/30"
                      else "border-[#CBD5E1] bg-white hover:border-[#90E0EF] hover:bg-[#F8FAFC]")))
              ∷ [])
            (element "div" (prop "className" "flex items-center justify-between" ∷ []) (
              (element "div" (prop "className" "flex items-center gap-3" ∷ []) (
                (element "div"
                  (prop "className" (
                      cat "flex h-8 w-8 items-center justify-center rounded-lg " (
                        (if is_selected
                          then "bg-[#0077B6] text-white"
                          else "bg-[#F1F5F9] text-[#0077B6]")))
                    ∷ [])
                  (element comp.icon (prop "className" "w-4 h-4" ∷ []) nothing))
                & (element "div" [] (
                    (element "span" (prop "className" "font-bold text-sm text-[#03045E]" ∷ [])
                      (say comp.name))
                    & (element "p" (prop "className" "text-[10px] text-[#64748B]" ∷ [])
                        (say comp.category))))))
              & (element "span"
                  (prop "className"
                      "text-[11px] font-bold text-[#0077B6] bg-white px-2 py-0.5 rounded border border-[#CBD5E1]"
                    ∷ [])
                  (say comp.go_package)))))
          & (when (ltb idx ((length arch_components) - 1)) (
              element "div" (prop "className" "flex justify-center" ∷ [])
                (element "div" (prop "className" "h-4 w-0.5 bg-[#CBD5E1]" ∷ []) nothing))))))

unfoldable pub inspector : ArchComponent → Node ArchComponent
inspector selected = element "div" (prop "className" "lg:col-span-5" ∷ []) (
    element "div"
      (prop "className"
          "sticky top-20 p-5 rounded-2xl border border-[#CBD5E1] bg-white shadow-sm space-y-4 font-mono text-xs"
        ∷ [])
      ((element "div"
          (prop "className" "flex items-center justify-between border-b border-[#E2E8F0] pb-3" ∷ [])
          ((element "span" (prop "className" "text-[10px] font-bold uppercase text-[#0077B6]" ∷ [])
              (say "Component Inspector"))
            & (element "span"
                (prop "className"
                    "text-[11px] font-bold text-[#22A06B] bg-[#E8F8F0] px-2 py-0.5 rounded border border-[#A8E6CF]"
                  ∷ [])
                (say selected.category))))
        & (element "div" (prop "className" "space-y-3" ∷ []) (
            (element "div" [] (
              (element "h3" (prop "className" "font-bold text-base text-[#03045E]" ∷ [])
                (say selected.name))
              & (element "p"
                  (prop "className" "text-xs text-[#475569] leading-relaxed mt-1 font-sans" ∷ [])
                  (say selected.purpose))))
            & (element "div"
                (prop "className" "p-3 rounded-lg bg-[#F8FAFC] border border-[#E2E8F0] space-y-2"
                  ∷ [])
                ((element "div" [] (
                    (element "span"
                      (prop "className" "text-[10px] text-[#64748B] block uppercase font-bold" ∷ [])
                      (say "Input Stream:"))
                    & (element "span"
                        (prop "className" "text-[#03045E] font-semibold text-[11px]" ∷ [])
                        (say selected.inputs))))
                  & (element "div" [] (
                      (element "span"
                        (prop "className" "text-[10px] text-[#64748B] block uppercase font-bold"
                          ∷ [])
                        (say "Output Artifacts:"))
                      & (element "span"
                          (prop "className" "text-[#0077B6] font-semibold text-[11px]" ∷ [])
                          (say selected.outputs))))))
            & (element "div" [] (
                (element "span"
                  (prop "className" "text-[10px] text-[#64748B] block uppercase font-bold" ∷ [])
                  (say "Go Package Path:"))
                & (element "div"
                    (prop "className"
                        "mt-1 p-2 rounded bg-[#F1F5F9] text-[#03045E] font-bold border border-[#E2E8F0]"
                      ∷ [])
                    ((say "cloudWeave/") & (say selected.go_package)))))
            & (element "div" [] (
                (element "span"
                  (prop "className" "text-[10px] text-[#64748B] block uppercase font-bold" ∷ [])
                  (say "Core Structs & Interfaces:"))
                & (element "div" (prop "className" "flex flex-wrap gap-1.5 mt-1.5" ∷ []) (
                    each selected.key_types (λ t.
                      element "span"
                        (prop "key" t
                          ∷ prop "className"
                              "px-2 py-0.5 rounded bg-[#CAF0F8] text-[#0077B6] font-bold text-[10px] border border-[#90E0EF]"
                          ∷ [])
                        (say t))))))))
        & (element "div"
            (prop "className"
                "pt-3 border-t border-[#E2E8F0] text-[10px] text-[#64748B] flex items-center gap-1.5"
              ∷ [])
            ((element "CheckCircle" (prop "className" "w-3.5 h-3.5 text-[#22A06B]" ∷ []) nothing)
              & (element "span" [] (say "Zero external CGO dependencies"))))))

unfoldable pub view : ArchComponent → Node ArchComponent
unfolding diagram inspector
view selected = element "div" (prop "className" "space-y-6" ∷ []) (
    (element "div"
      (prop "className" "p-6 rounded-2xl border border-[#CBD5E1] bg-white shadow-xs" ∷ [])
      ((element "div" (prop "className" "flex items-center gap-2" ∷ []) (
          (element "span"
            (prop "className"
                "rounded-md bg-[#CAF0F8] px-2.5 py-1 text-[10px] font-mono font-bold text-[#0077B6] uppercase"
              ∷ [])
            (say "System Architecture"))
          & (element "span" (prop "className" "text-xs font-mono text-[#64748B]" ∷ [])
              (say "Click any component to inspect"))))
        & (element "h2"
            (prop "className" "text-2xl font-bold tracking-tight text-[#03045E] mt-2" ∷ [])
            (say "One Request, Several Deliberate Boundaries."))
        & (element "p" (prop "className" "text-xs sm:text-sm text-[#64748B] mt-1 max-w-2xl" ∷ []) (
            say
              "CloudWeave separates S3 client semantics from content-addressed chunking, quorum coordination, and local disk storage."))))
    & (element "div" (prop "className" "grid grid-cols-1 lg:grid-cols-12 gap-6" ∷ [])
        ((diagram selected) & (inspector selected))))
