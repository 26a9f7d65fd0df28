-- ===== src/Canvas/Dedup.antt =====
-- documentation/components/canvas/DedupCanvas.tsx: an object uploaded a second time with one byte changed.
-- The state is whether it was.
pub mod Sizes
mod Tests
use cloud_weave.Prelude.{String, Bool, true, false, not, List, [], ◌∷◌, if◌then◌else◌, cat, concat}
use cloud_weave.Html.{Node, prop, on, nothing, say, element, ◌&◌, each, when}

pub data Status : Type 0 where
  stored reused fresh : Status

pub record Chunk : Type 0 where
  pub name : String
  pub hash : String
  pub size : String
  pub status : Status

abbrev pub chunks_v1 : List Chunk
chunks_v1 =
    record { name = "Chunk A"; hash = "8f3a...91c2"; size = "16 KB"; status = stored }
    ∷ record { name = "Chunk B"; hash = "17bd...82a1"; size = "64 KB"; status = stored }
    ∷ record { name = "Chunk C"; hash = "a92c...11ef"; size = "32 KB"; status = stored }
    ∷ record { name = "Chunk D"; hash = "7b3f...91c8"; size = "48 KB"; status = stored }
    ∷ []

abbrev pub chunks_v2 : List Chunk
chunks_v2 =
    record { name = "Chunk A"; hash = "8f3a...91c2"; size = "16 KB"; status = reused }
    ∷ record { name = "Chunk B'"; hash = "3e4f...1290"; size = "64 KB"; status = fresh }
    ∷ record { name = "Chunk C"; hash = "a92c...11ef"; size = "32 KB"; status = reused }
    ∷ record { name = "Chunk D"; hash = "7b3f...91c8"; size = "48 KB"; status = reused }
    ∷ []

pub data Event : Type 0 where
  upload_modified reset_experiment : Event

abbrev pub initial : Bool
initial = false

unfoldable pub handle : Event → Bool → Bool
handle upload_modified has_uploaded_v2 = true
handle reset_experiment has_uploaded_v2 = false

abbrev pub is_reused : Status → Bool
is_reused stored = false
is_reused reused = true
is_reused fresh = false

unfoldable pub header : Bool → Node Event
header has_uploaded_v2 =
    element "div"
      (prop "className"
          "p-4 border-b border-[#26262B] flex flex-wrap items-center justify-between gap-3 font-mono text-xs bg-[#000000]"
        ∷ [])
      ((element "div" (prop "className" "flex items-center gap-2" ∷ []) (
          (element "Layers" (prop "className" "w-4 h-4 text-[#A6A9AE]" ∷ []) nothing)
          & (element "span" (prop "className" "font-bold text-[#EDE8DF]" ∷ [])
              (say "FASTCDC CONTENT-DEFINED DEDUPLICATION"))))
        & (element "div" [] (
            if not has_uploaded_v2
            then element "button"
                (on "onClick" upload_modified
                  ∷ prop "className"
                      "flex items-center gap-1.5 px-3 py-1.5 rounded bg-[#7A1F2B] text-[#EDE8DF] font-semibold hover:bg-[#912735] transition-colors text-xs cursor-pointer shadow-xs"
                  ∷ [])
                ((element "span" [] (say "Upload Modified File (1-Byte Edit)"))
                  & (element "ArrowRight" (prop "className" "w-3.5 h-3.5 stroke-[2.5]" ∷ [])
                      nothing))
            else element "button"
                (on "onClick" reset_experiment
                  ∷ prop "className"
                      "flex items-center gap-1.5 px-3 py-1.5 rounded border border-[#26262B] text-[#8B8B8F] hover:text-[#EDE8DF] hover:border-[#34343A] transition-colors text-xs cursor-pointer"
                  ∷ [])
                ((element "RefreshCw" (prop "className" "w-3.5 h-3.5" ∷ []) nothing)
                  & (element "span" [] (say "Reset Experiment"))))))

unfoldable pub comparison : Bool → Node Event
comparison has_uploaded_v2 =
    element "div" (prop "className" "p-6 space-y-6 font-mono text-xs bg-[#000000]" ∷ []) (
      (element "div" (prop "className" "space-y-2" ∷ []) (
        (element "div"
          (prop "className" "flex items-center justify-between text-[#8B8B8F] text-[11px]" ∷ [])
          ((element "span" (prop "className" "font-bold text-[#EDE8DF]" ∷ [])
              (say "Original Object: backup_v1.tar (160 KB)"))
            & (element "span" [] (say "4 FastCDC Chunks"))))
        & (element "div" (prop "className" "grid grid-cols-2 sm:grid-cols-4 gap-3" ∷ []) (
            each chunks_v1 (λ c.
              element "div"
                (prop "key" c.name
                  ∷ prop "className"
                      "p-3 rounded-lg border border-[#26262B] bg-[#19191C] text-center space-y-1"
                  ∷ [])
                ((element "div" (prop "className" "font-bold text-[#EDE8DF]" ∷ []) (say c.name))
                  & (element "div" (prop "className" "text-[10px] text-[#8B8B8F]" ∷ [])
                      (say c.hash))
                  & (element "div"
                      (prop "className"
                          "text-[10px] text-[#EDE8DF] font-semibold pt-1 border-t border-[#26262B]"
                        ∷ [])
                      ((say "Stored to Disk (") & (say c.size) & (say ")")))))))))
      & (when has_uploaded_v2 (
          element "div" (prop "className" "space-y-2 pt-2 border-t border-[#26262B]" ∷ []) (
            (element "div"
              (prop "className" "flex items-center justify-between text-[#8B8B8F] text-[11px]" ∷ [])
              ((element "span" (prop "className" "font-bold text-[#EDE8DF]" ∷ [])
                  (say "Modified Object: backup_v2.tar (160 KB) · 1 Byte Changed in Chunk B"))
                & (element "span" (prop "className" "text-[#EDE8DF] font-semibold" ∷ [])
                    (say "75% Deduplication Savings"))))
            & (element "div" (prop "className" "grid grid-cols-2 sm:grid-cols-4 gap-3" ∷ []) (
                each chunks_v2 (λ c.
                  element "div"
                    (prop "key" c.name
                      ∷ prop "className" (
                          cat "p-3 rounded-lg border text-center space-y-1 " (
                            (if is_reused c.status
                              then "border-[#26262B] bg-[#19191C]"
                              else "border-[#7A1F2B] bg-[#19191C]")))
                      ∷ [])
                    ((element "div" (prop "className" "font-bold text-[#EDE8DF]" ∷ []) (say c.name))
                      & (element "div" (prop "className" "text-[10px] text-[#8B8B8F]" ∷ [])
                          (say c.hash))
                      & (element "div"
                          (prop "className" (
                              cat "text-[10px] font-semibold pt-1 border-t border-[#26262B] " (
                                (if is_reused c.status
                                  then "text-[#EDE8DF]"
                                  else "text-[#7A1F2B]")))
                            ∷ [])
                          (say (
                            if is_reused c.status
                            then "Reused (0 Disk I/O)"
                            else "New Chunk Written (64 KB)")))))))))))

unfoldable pub proof_strip : Bool → Node Event
proof_strip has_uploaded_v2 =
    element "div"
      (prop "className" "p-4 border-t border-[#26262B] bg-[#19191C] font-mono text-xs" ∷ [])
      (element "div" (prop "className" "grid grid-cols-1 sm:grid-cols-3 gap-3" ∷ []) (
        (element "div" (prop "className" "p-2.5 rounded bg-[#000000] border border-[#26262B]" ∷ [])
          ((element "span" (prop "className" "text-[10px] text-[#8B8B8F] block" ∷ [])
              (say "Logical Transferred:"))
            & (element "span" (prop "className" "text-[#EDE8DF] font-semibold" ∷ [])
                (say (if has_uploaded_v2 then "320 KB (2 Objects)" else "160 KB (1 Object)")))))
        & (element "div"
            (prop "className" "p-2.5 rounded bg-[#000000] border border-[#26262B]" ∷ [])
            ((element "span" (prop "className" "text-[10px] text-[#8B8B8F] block" ∷ [])
                (say "Physical Disk Used:"))
              & (element "span" (prop "className" "text-[#EDE8DF] font-bold" ∷ [])
                  (say (if has_uploaded_v2 then "224 KB (vs 320 KB)" else "160 KB")))))
        & (element "div"
            (prop "className" "p-2.5 rounded bg-[#000000] border border-[#26262B]" ∷ [])
            ((element "span" (prop "className" "text-[10px] text-[#8B8B8F] block" ∷ [])
                (say "Effective Speedup:"))
              & (element "span" (prop "className" "text-[#EDE8DF] font-bold" ∷ [])
                  (say (if has_uploaded_v2 then "485.2 MB/s (CAS Hit)" else "151.6 MB/s")))))))

unfoldable pub view : Bool → Node Event
unfolding header comparison proof_strip
view has_uploaded_v2 =
    element "div"
      (prop "className"
          "w-full flex flex-col bg-[#19191C] border border-[#26262B] rounded-xl overflow-hidden font-sans select-none"
        ∷ [])
      ((header has_uploaded_v2) & (comparison has_uploaded_v2) & (proof_strip has_uploaded_v2))
