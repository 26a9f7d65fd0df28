-- ===== src/Pages/Docs/Reader.antt =====
-- documentation/components/docs/DocsReader.tsx: articles by topic. An event is the id of the topic
-- clicked on.
pub mod Articles
mod Tests
use cloud_weave.Prelude.{
  Option, get_or, ℕ, ◌+◌, String, Bool, true, false, not, ◌&&◌, ◌||◌, List, [], ◌∷◌, map,
  if◌then◌else◌, show, cat, concat, same,
}
use cloud_weave.Html.{
  Node, prop, num, flag, fields, on, nothing, say, element, ◌&◌, each, each_from, when,
}

pub record Topic : Type 0 where
  pub id : String
  pub label : String

-- The topic shown first: the property `initialTopic`, or its default.
abbrev pub initial : Option String → String
initial given = get_or given "fastcdc"

abbrev pub topics : List Topic
topics =
    record { id = "fastcdc"; label = "FastCDC Chunking" }
    ∷ record { id = "cas"; label = "SHA-256 CAS & Dedup" }
    ∷ record { id = "ring"; label = "Consistent Hash Ring" }
    ∷ record { id = "quorum"; label = "N / W / R Quorum" }
    ∷ record { id = "erasure"; label = "Erasure Coding (RS)" }
    ∷ record { id = "repair"; label = "Failure Detection & Repair" }
    ∷ record { id = "wal"; label = "WAL & Durability" }
    ∷ []

unfoldable pub fastcdc_article : Node String
fastcdc_article =
    element "article" (prop "className" "space-y-6 text-sm text-[#8B8B8F] leading-relaxed" ∷ []) (
      (element "div" [] (
        (element "h1"
          (prop "className" "text-2xl font-serif font-bold text-[#EDE8DF] tracking-tight" ∷ [])
          (say "FastCDC Content-Defined Chunking"))
        & (element "p" (prop "className" "text-xs font-mono text-[#A6A9AE] mt-1" ∷ [])
            (say "Rolling Gear Hash · Boundary Resilience · Variable 16KB-256KB Chunks"))))
      & (element "p" [] (
          say
            "Fixed-size chunking (such as cutting an object every 1 MB) breaks completely when a single byte is inserted or deleted at the beginning of a file. Every subsequent boundary shifts, causing 100% deduplication failure. FastCDC solves this by computing a rolling Gear hash over the byte stream to declare chunk cut points based on content patterns rather than fixed offsets."))
      & (element "div"
          (prop "className"
              "p-4 rounded-xl border border-[#26262B] bg-[#19191C] space-y-2 font-mono text-xs"
            ∷ [])
          ((element "div" (prop "className" "font-bold text-[#EDE8DF]" ∷ [])
              (say "How CloudWeave Implements FastCDC"))
            & (element "p" (prop "className" "text-[#8B8B8F]" ∷ []) (
                (say
                  "As bytes stream from the HTTP request into CloudWeave, the chunker updates a 64-bit fingerprint:")
                & (element "code" (prop "className" "text-[#EDE8DF] ml-1" ∷ [])
                    (say "fp = (fp << 1) + gearTable[b]"))
                & (say
                    ". When the lower bits match the mask threshold within the minimum (16 KB) and maximum (256 KB) size window, a chunk is finalized and hashed with SHA-256.")))))
      & (element "CodeBlock"
          (prop "code" (
              "// internal/chunk/cdc.go\nfunc FastCDC(data []byte) []Chunk {\n    var chunks []Chunk\n    fp := uint64(0)\n    start := 0\n    for i, b := range data {\n        fp = (fp << 1) + gearTable[b]\n        size := i - start\n        if size >= MinChunkSize && ((fp & Mask) == 0 || size >= MaxChunkSize) {\n            chunkData := data[start : i+1]\n            hash := sha256.Sum256(chunkData)\n            chunks = append(chunks, Chunk{\n                ID:   hex.EncodeToString(hash[:]),\n                Data: chunkData,\n                Size: len(chunkData),\n            })\n            start = i + 1\n            fp = 0\n        }\n    }\n    return chunks\n}")
            ∷ prop "language" "go"
            ∷ prop "filename" "internal/chunk/cdc.go"
            ∷ [])
          nothing))

unfoldable pub cas_article : Node String
cas_article =
    element "article" (prop "className" "space-y-6 text-sm text-[#8B8B8F] leading-relaxed" ∷ []) (
      (element "div" [] (
        (element "h1"
          (prop "className" "text-2xl font-serif font-bold text-[#EDE8DF] tracking-tight" ∷ [])
          (say "Content-Addressable Storage (CAS)"))
        & (element "p" (prop "className" "text-xs font-mono text-[#A6A9AE] mt-1" ∷ [])
            (say "Cryptographic Integrity · Self-Verifying Blocks · Zero-I/O Deduplication"))))
      & (element "p" [] (
          (say
            "In CloudWeave, chunk identifiers are not random UUIDs; each chunk ID is strictly the hexadecimal SHA-256 hash of its binary payload: ")
          & (element "code" (prop "className" "text-[#EDE8DF]" ∷ []) (say "ID = hex(sha256(data))"))
          & (say ". This guarantees that data is self-verifying.")))
      & (element "CodeBlock"
          (prop "code" (
              "// internal/storage/diskstore.go\nfunc (s *DiskStore) Put(chunkID string, data []byte) error {\n    h := sha256.Sum256(data)\n    computed := hex.EncodeToString(h[:])\n    if computed != chunkID {\n        return fmt.Errorf(\"CAS mismatch: expected %s, got %s\", chunkID, computed)\n    }\n    return s.atomicWriteFile(s.chunkPath(chunkID), data)\n}")
            ∷ prop "language" "go"
            ∷ prop "filename" "internal/storage/diskstore.go"
            ∷ [])
          nothing))

unfoldable pub switcher : String → Node String
switcher topic =
    element "div"
      (prop "className"
          "flex items-center gap-1.5 overflow-x-auto pb-2 border-b border-[#26262B] font-mono text-xs"
        ∷ [])
      (each topics (λ t.
        element "button"
          (prop "key" t.id
            ∷ on "onClick" t.id
            ∷ prop "className" (
                cat "px-3 py-1.5 rounded shrink-0 font-medium transition-colors cursor-pointer " (
                  (if same topic t.id
                    then "bg-[#19191C] text-[#EDE8DF] border border-[#7A1F2B] font-bold"
                    else "text-[#8B8B8F] hover:text-[#EDE8DF] hover:bg-[#19191C]")))
            ∷ [])
          (say t.label)))

unfoldable pub view : String → Node String
unfolding switcher fastcdc_article cas_article
view topic =
    element "div"
      (prop "className"
          "w-full max-w-4xl mx-auto space-y-8 py-4 font-sans selection:bg-[#7A1F2B]/40 selection:text-[#EDE8DF]"
        ∷ [])
      ((switcher topic)
        & (when (same topic "fastcdc") fastcdc_article)
        & (when (same topic "cas") cas_article))
