-- ===== src/Playground/Chunks.antt =====
-- documentation/components/playground/UploadChunkingVisualizer.tsx: the chunks of the sample object. An
-- event is the id of the chunk clicked on; a quotient is kept as the text of its terms.
use cloud_weave.Prelude.{
  ℕ, String, Bool, false, not, ◌&&◌, Option, none, some, List, [], ◌∷◌, if◌then◌else◌, show, cat,
  concat, same,
}
use cloud_weave.Html.{Node, prop, fields, on, nothing, say, element, ◌&◌, each_from}
use cloud_weave.Playground.Stepper.{SimulationStep, upload, is_step}

pub data Status : Type 0 where
  idle chunking hashed placed replicated committed : Status

pub record ChunkInfo : Type 0 where
  pub id : String
  pub name : String
  pub size_mb : ℕ
  pub hash : String
  pub primary_node : String
  pub replicas : List String
  pub status : Status

abbrev pub sample_chunks : List ChunkInfo
sample_chunks =
    record {
      id = "chunk-a";
      name = "Chunk A";
      size_mb = 12;
      hash = "8f3a2c419be091c2";
      primary_node = "Node 2";
      replicas = "Node 3" ∷ "Node 4" ∷ [];
      status = committed;
    }
    ∷ record {
      id = "chunk-b";
      name = "Chunk B";
      size_mb = 18;
      hash = "17bd9e30fac882a1";
      primary_node = "Node 4";
      replicas = "Node 5" ∷ "Node 1" ∷ [];
      status = committed;
    }
    ∷ record {
      id = "chunk-c";
      name = "Chunk C";
      size_mb = 9;
      hash = "a92c7104bd1111ef";
      primary_node = "Node 1";
      replicas = "Node 2" ∷ "Node 3" ∷ [];
      status = committed;
    }
    ∷ record {
      id = "chunk-d";
      name = "Chunk D";
      size_mb = 21;
      hash = "7b3f5481d4a091c8";
      primary_node = "Node 3";
      replicas = "Node 4" ∷ "Node 5" ∷ [];
      status = committed;
    }
    ∷ []

-- sampleChunks[0]
abbrev pub first_chunk : ChunkInfo
first_chunk = record {
  id = "chunk-a";
  name = "Chunk A";
  size_mb = 12;
  hash = "8f3a2c419be091c2";
  primary_node = "Node 2";
  replicas = "Node 3" ∷ "Node 4" ∷ [];
  status = committed;
}

-- `selectedChunk === id`
abbrev pub is_selected_in : Option String → String → Bool
is_selected_in none id = false
is_selected_in (some chosen) id = same chosen id

unfoldable pub chunk_card : SimulationStep → Option String → ChunkInfo → ℕ → Node String
chunk_card step selected_chunk chunk idx =
    let is_selected = is_selected_in selected_chunk chunk.id in
    element "motion.div"
      (prop "key" chunk.id
        ∷ fields "initial" (("opacity", "0") ∷ ("scale", "0.95") ∷ [])
        ∷ fields "animate" (
            ("opacity", "1")
            ∷ ("scale", (if is_selected then "1.02" else "1"))
            ∷ ("y", (if not (is_step step upload) then "0" else "-10"))
            ∷ [])
        ∷ fields "transition"
            (("delay", (concat (show idx ∷ " * 0.1" ∷ []))) ∷ ("duration", "0.3") ∷ [])
        ∷ on "onClick" chunk.id
        ∷ prop "className" (
            cat "p-3.5 rounded-xl border cursor-pointer transition-all " (
              (if is_selected
                then "border-[#00B4D8] bg-[#CAF0F8] shadow-md ring-2 ring-[#00B4D8]/30"
                else "border-[#CBD5E1] bg-white hover:border-[#90E0EF] hover:bg-[#F8FAFC]")))
        ∷ [])
      ((element "div" (prop "className" "flex items-center justify-between" ∷ []) (
          (element "span" (prop "className" "text-xs font-mono font-bold text-[#03045E]" ∷ [])
            (say chunk.name))
          & (element "span"
              (prop "className"
                  "text-[11px] font-mono font-semibold px-2 py-0.5 rounded bg-white border border-[#E2E8F0] text-[#0077B6]"
                ∷ [])
              ((say (show chunk.size_mb)) & (say " MB")))))
        & (element "div"
            (prop "className" "mt-2.5 w-full bg-[#F1F5F9] rounded-full h-1.5 overflow-hidden" ∷ [])
            (element "div"
              (prop "className" "bg-[#00B4D8] h-full rounded-full"
                ∷ fields "style"
                    (("width", (concat ("(" ∷ show chunk.size_mb ∷ " / 24) * 100%" ∷ []))) ∷ [])
                ∷ [])
              nothing))
        & (element "div" (prop "className" "mt-3 pt-2.5 border-t border-[#E2E8F0] space-y-1" ∷ []) (
            (element "div"
              (prop "className" "flex items-center gap-1 text-[10px] font-mono text-[#64748B]" ∷ [])
              ((element "Hash" (prop "className" "w-3 h-3 text-[#0077B6]" ∷ []) nothing)
                & (element "span" [] (say "SHA-256 Digest"))))
            & (element "div"
                (prop "className"
                    "text-[11px] font-mono font-bold text-[#03045E] truncate bg-white px-2 py-1 rounded border border-[#E2E8F0]"
                  ∷ [])
                (say chunk.hash))))
        & (element "div"
            (prop "className"
                "mt-2 flex items-center justify-between text-[10px] font-mono text-[#64748B]"
              ∷ [])
            ((element "span" [] (
                (say "Primary: ")
                & (element "b" (prop "className" "text-[#03045E]" ∷ []) (say chunk.primary_node))))
              & (element "span" [] (say "N=3")))))

unfoldable pub view : SimulationStep → Option String → Node String
unfolding chunk_card
view step selected_chunk =
    element "div"
      (prop "className"
          "flex flex-col items-center justify-center p-6 space-y-6 w-full max-w-4xl mx-auto"
        ∷ [])
      ((element "motion.div"
          (fields "initial" (("opacity", "0") ∷ ("y", "-10") ∷ [])
            ∷ fields "animate" (("opacity", "1") ∷ ("y", "0") ∷ [])
            ∷ prop "className"
                "w-full flex items-center justify-between p-4 rounded-xl border border-[#CBD5E1] bg-white shadow-xs"
            ∷ [])
          ((element "div" (prop "className" "flex items-center gap-3" ∷ []) (
              (element "div"
                (prop "className"
                    "flex h-10 w-10 items-center justify-center rounded-lg bg-[#CAF0F8] text-[#0077B6]"
                  ∷ [])
                (element "FileVideo" (prop "className" "w-5 h-5" ∷ []) nothing))
              & (element "div" [] (
                  (element "div" (prop "className" "flex items-center gap-2" ∷ []) (
                    (element "span" (prop "className" "font-bold text-sm text-[#03045E]" ∷ [])
                      (say "video.mp4"))
                    & (element "span"
                        (prop "className"
                            "rounded bg-[#F1F5F9] px-2 py-0.5 text-[10px] font-mono text-[#64748B]"
                          ∷ [])
                        (say "60.0 MB total"))))
                  & (element "p" (prop "className" "text-xs font-mono text-[#64748B]" ∷ [])
                      (say "PUT /bucket/media/video.mp4"))))))
            & (element "div" (prop "className" "flex items-center gap-2" ∷ []) (
                (element "span"
                  (prop "className" "inline-block h-2 w-2 rounded-full bg-[#00B4D8] animate-ping"
                    ∷ [])
                  nothing)
                & (element "span"
                    (prop "className" "text-xs font-mono font-semibold text-[#0077B6]" ∷ [])
                    (say (
                      if is_step step upload
                      then "Streaming to S3 API..."
                      else "FastCDC Rolling Stream Active")))))))
        & (element "div" (prop "className" "flex flex-col items-center" ∷ []) (
            (element "div" (prop "className" "h-6 w-0.5 bg-[#90E0EF] relative overflow-hidden" ∷ [])
              (element "motion.div"
                (prop "className" "absolute top-0 w-full bg-[#00B4D8] h-3"
                  ∷ fields "animate" (("y", "[0, 24]") ∷ [])
                  ∷ fields "transition"
                      (("repeat", "Infinity") ∷ ("duration", "1.2") ∷ ("ease", "linear") ∷ [])
                  ∷ [])
                nothing))
            & (element "div"
                (prop "className"
                    "flex items-center gap-1.5 rounded-full border border-[#90E0EF] bg-[#CAF0F8] px-3 py-1 text-[11px] font-mono font-semibold text-[#0077B6]"
                  ∷ [])
                ((element "Layers" (prop "className" "w-3 h-3 text-[#00B4D8]" ∷ []) nothing)
                  & (element "span" []
                      (say "FastCDC Content-Defined Chunker (Min: 8MB, Avg: 15MB, Max: 24MB)"))))
            & (element "div" (prop "className" "h-6 w-0.5 bg-[#90E0EF]" ∷ []) nothing)))
        & (element "div" (prop "className" "w-full" ∷ []) (
            (element "div" (prop "className" "flex items-center justify-between mb-2" ∷ []) (
              (element "span"
                (prop "className" "text-xs font-mono font-bold uppercase text-[#64748B]" ∷ [])
                (say "Variable-Sized Content-Defined Chunks"))
              & (element "span" (prop "className" "text-xs font-mono text-[#0077B6]" ∷ []) (
                  say (
                    if not (is_step step upload) && not (is_step step SimulationStep.chunking)
                    then "4 Chunks Hashed & Verified"
                    else "Rolling Gear Hash in progress")))))
            & (element "div"
                (prop "className" "grid grid-cols-1 sm:grid-cols-2 lg:grid-cols-4 gap-3" ∷ [])
                (each_from 0 sample_chunks (chunk_card step selected_chunk))))))
