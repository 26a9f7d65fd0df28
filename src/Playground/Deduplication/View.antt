-- ===== src/Playground/Deduplication/View.antt =====
-- documentation/components/playground/DeduplicationPlayground.tsx: what the component shows.
use cloud_weave.Prelude.{
  ℕ, ◌*◌, ◌/◌, String, true, false, not, ◌&&◌, List, [], ◌∷◌, ltb, ◌==◌, if◌then◌else◌, show, cat,
}
use cloud_weave.Html.{Node, prop, fields, on, nothing, say, element, ◌&◌, when, each_from}
use cloud_weave.Playground.Deduplication.{
  Lab, Event, second_upload, reset, reused_chunks, new_chunks, logical_mb, physical_mb, savings_pct,
}

unfoldable pub header : Lab → Node Event
header s =
    element "div"
      (prop "className"
          "flex flex-col sm:flex-row sm:items-center justify-between gap-4 border-b border-[#E2E8F0] pb-4"
        ∷ [])
      ((element "div" [] (
          (element "div" (prop "className" "flex items-center gap-2" ∷ []) (
            (element "Layers" (prop "className" "w-5 h-5 text-[#0077B6]" ∷ []) nothing)
            & (element "h3" (prop "className" "font-bold text-base text-[#03045E]" ∷ [])
                (say "FastCDC & SHA-256 Deduplication Lab"))))
          & (element "p" (prop "className" "text-xs text-[#64748B] mt-0.5" ∷ []) (
              say
                "Content-addressable storage (CAS) automatically eliminates redundant chunk storage across uploads."))))
        & (element "div" (prop "className" "flex items-center gap-2" ∷ []) (
            if s.upload_count == 1
            then element "div" (prop "className" "flex gap-2" ∷ []) (
                (element "button"
                  (on "onClick" (second_upload false)
                    ∷ prop "className"
                        "flex items-center gap-1.5 rounded-lg bg-[#0077B6] px-3.5 py-1.5 text-xs font-bold text-white shadow-xs hover:bg-[#03045E] transition-all"
                    ∷ [])
                  (element "span" [] (say "Upload Duplicate File")))
                & (element "button"
                    (on "onClick" (second_upload true)
                      ∷ prop "className"
                          "flex items-center gap-1.5 rounded-lg border border-[#00B4D8] bg-[#CAF0F8] px-3.5 py-1.5 text-xs font-bold text-[#0077B6] hover:bg-[#90E0EF] transition-all"
                      ∷ [])
                    (element "span" [] (say "Upload Modified (1-Byte Edit)"))))
            else element "button"
                (on "onClick" reset
                  ∷ prop "className"
                      "flex items-center gap-1.5 rounded-lg border border-[#CBD5E1] bg-white px-3 py-1.5 text-xs font-semibold text-[#03045E] hover:bg-[#F1F5F9] transition-all"
                  ∷ [])
                ((element "RefreshCw" (prop "className" "w-3.5 h-3.5 text-[#0077B6]" ∷ []) nothing)
                  & (element "span" [] (say "Reset Deduplication Lab"))))))

unfoldable pub meter : Lab → Node Event
meter s =
    element "div"
      (prop "className"
          "grid grid-cols-1 md:grid-cols-3 gap-4 bg-[#F8FAFC] p-4 rounded-xl border border-[#E2E8F0] font-mono text-xs"
        ∷ [])
      ((element "div" [] (
          (element "span" (prop "className" "text-[#64748B] text-[11px] block" ∷ [])
            (say "Total Logical Ingested"))
          & (element "span" (prop "className" "text-lg font-bold text-[#03045E]" ∷ [])
              ((say (show (logical_mb s))) & (say " MB")))
          & (element "span" (prop "className" "text-[10px] text-[#64748B] block mt-0.5" ∷ [])
              (say "2 files uploaded by client"))))
        & (element "div" [] (
            (element "span" (prop "className" "text-[#64748B] text-[11px] block" ∷ [])
              (say "Actual Physical Disk Used"))
            & (element "span" (prop "className" "text-lg font-bold text-[#0077B6]" ∷ [])
                ((say (show (physical_mb s))) & (say " MB")))
            & (element "span"
                (prop "className" "text-[10px] text-[#22A06B] block mt-0.5 font-bold" ∷ [])
                (say (
                  if ltb 0 (savings_pct s)
                  then cat (show (savings_pct s)) "% physical disk savings"
                  else "Initial Baseline")))))
        & (element "div" [] (
            (element "span" (prop "className" "text-[#64748B] text-[11px] block" ∷ [])
              (say "Deduplication Ratio"))
            & (element "span" (prop "className" "text-lg font-bold text-[#22A06B]" ∷ []) (
                say
                  (if s.upload_count == 1 then "1.0x" else if s.has_edit then "1.54x" else "2.0x")))
            & (element "span" (prop "className" "text-[10px] text-[#64748B] block mt-0.5" ∷ []) (
                (say (show (reused_chunks s)))
                & (say " chunks reused, ")
                & (say (show (new_chunks s)))
                & (say " new written"))))))

unfoldable pub bars : Lab → Node Event
bars s = element "div" (prop "className" "space-y-3 font-mono text-xs" ∷ []) (
    (element "div" [] (
      (element "div" (prop "className" "flex justify-between text-[11px] mb-1 text-[#64748B]" ∷ [])
        ((element "span" [] (say "Logical Data Size (Client-side)"))
          & (element "span" (prop "className" "font-bold text-[#03045E]" ∷ [])
              ((say (show (logical_mb s))) & (say " MB")))))
      & (element "div"
          (prop "className" "w-full bg-[#E2E8F0] h-3 rounded-full overflow-hidden" ∷ [])
          (element "div"
            (prop "className" "bg-[#64748B] h-full rounded-full"
              ∷ fields "style" (("width", "100%") ∷ [])
              ∷ [])
            nothing))))
    & (element "div" [] (
        (element "div"
          (prop "className" "flex justify-between text-[11px] mb-1 text-[#64748B]" ∷ [])
          ((element "span" [] (say "Physical Storage Footprint (Cluster DiskStore)"))
            & (element "span" (prop "className" "font-bold text-[#0077B6]" ∷ [])
                ((say (show (physical_mb s))) & (say " MB")))))
        & (element "div"
            (prop "className" "w-full bg-[#E2E8F0] h-3 rounded-full overflow-hidden" ∷ [])
            (element "motion.div"
              (prop "className" "bg-[#00B4D8] h-full rounded-full"
                ∷ fields "initial" (("width", "100%") ∷ [])
                ∷ fields "animate"
                    (("width", (cat (show (100 * physical_mb s / logical_mb s)) "%")) ∷ [])
                ∷ fields "transition" (("duration", "0.5") ∷ [])
                ∷ [])
              nothing)))))

abbrev pub chunk_names : List String
chunk_names = "Chunk A (12MB)" ∷ "Chunk B (18MB)" ∷ "Chunk C (9MB)" ∷ "Chunk D (21MB)" ∷ []

unfoldable pub chunk_card : Lab → String → ℕ → Node Event
chunk_card s name idx =
    let is_modified_chunk = s.has_edit && (idx == 1) in
    let is_reused = (s.upload_count == 2) && not is_modified_chunk in
    element "div"
      (prop "key" name
        ∷ prop "className" (
            cat "p-3 rounded-xl border text-xs font-mono transition-all " (
              (if is_reused
                then "border-[#A8E6CF] bg-[#E8F8F0]"
                else if is_modified_chunk
                then "border-[#FDE68A] bg-[#FFF8E6]"
                else "border-[#CBD5E1] bg-white")))
        ∷ [])
      ((element "div" (prop "className" "flex items-center justify-between" ∷ []) (
          (element "span" (prop "className" "font-bold text-[#03045E]" ∷ []) (say name))
          & (when is_reused (
              element "CheckCircle2" (prop "className" "w-3.5 h-3.5 text-[#22A06B]" ∷ [])
                nothing))))
        & (element "div" (prop "className" "mt-2 text-[10px] text-[#64748B]" ∷ []) (
            if s.upload_count == 1
            then element "span" [] (say "Initial Upload (CAS written)")
            else if is_reused
            then element "span" (prop "className" "text-[#22A06B] font-bold" ∷ [])
                (say "100% Hash Match • Zero I/O")
            else element "span" (prop "className" "text-[#D97706] font-bold" ∷ [])
                (say "Boundary Changed • Stored"))))

unfoldable pub cards : Lab → Node Event
unfolding chunk_card
cards s =
    element "div" (prop "className" "grid grid-cols-1 sm:grid-cols-4 gap-3 pt-2" ∷ [])
      (each_from 0 chunk_names (chunk_card s))

unfoldable pub view : Lab → Node Event
unfolding header meter bars cards
view s =
    element "div"
      (prop "className"
          "p-4 sm:p-6 bg-white rounded-2xl border border-[#CBD5E1] shadow-xs space-y-6"
        ∷ [])
      ((header s) & (meter s) & (bars s) & (cards s))
