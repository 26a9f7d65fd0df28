-- ===== src/Playground/Erasure/View.antt =====
-- documentation/components/playground/ErasureCodingPlayground.tsx: what the component shows.
use cloud_weave.Prelude.{Bool, true, false, not, [], ◌∷◌, if◌then◌else◌, show, cat}
use cloud_weave.Html.{Node, prop, on, nothing, say, element, ◌&◌, each}
use cloud_weave.Playground.Erasure.{
  Kind, data_shard, parity, Shard, Mode, erasure, replication, Lab, alive_count, failed_count,
  can_reconstruct, Event, set_mode, toggle, restore,
}

abbrev pub is_erasure : Mode → Bool
is_erasure erasure = true
is_erasure replication = false

abbrev pub is_parity_kind : Kind → Bool
is_parity_kind parity = true
is_parity_kind data_shard = false

unfoldable pub shard_card : Shard → Node Event
shard_card shard =
    let is_parity = is_parity_kind shard.kind in
    element "div"
      (prop "key" shard.id
        ∷ on "onClick" (toggle shard.id)
        ∷ prop "className" (
            cat "p-3 rounded-xl border cursor-pointer font-mono transition-all " (
              (if not shard.alive
                then "border-[#FECACA] bg-[#FEECEB]"
                else if is_parity
                then "border-[#90E0EF] bg-[#CAF0F8]"
                else "border-[#A8E6CF] bg-[#E8F8F0]")))
        ∷ [])
      ((element "div" (prop "className" "flex items-center justify-between" ∷ []) (
          (element "span" (prop "className" "text-xs font-bold text-[#03045E]" ∷ [])
            (say shard.name))
          & (element "div"
              (prop "className" (
                  cat
                    "flex h-4 w-4 items-center justify-center rounded-full text-white text-[10px] "
                    ((if shard.alive then "bg-[#22A06B]" else "bg-[#E5484D]")))
                ∷ [])
              (if shard.alive
                then element "Check" (prop "className" "w-3 h-3" ∷ []) nothing
                else element "X" (prop "className" "w-3 h-3" ∷ []) nothing))))
        & (element "div" (prop "className" "mt-2 text-[10px] text-[#64748B]" ∷ []) (
            (element "div" [] (say shard.node))
            & (element "div" (prop "className" "font-bold text-[#03045E] mt-0.5" ∷ [])
                (say (if shard.alive then "Online (Shard OK)" else "FAILED (Lost)"))))))

header : Lab → Node Event
header s =
    element "div"
      (prop "className"
          "flex flex-col sm:flex-row sm:items-center justify-between gap-4 border-b border-[#E2E8F0] pb-4"
        ∷ [])
      ((element "div" [] (
          (element "div" (prop "className" "flex items-center gap-2" ∷ []) (
            (element "Cpu" (prop "className" "w-5 h-5 text-[#0077B6]" ∷ []) nothing)
            & (element "h3" (prop "className" "font-bold text-base text-[#03045E]" ∷ [])
                (say "Reed-Solomon Erasure Coding (K=4, M=2)"))))
          & (element "p" (prop "className" "text-xs text-[#64748B] mt-0.5" ∷ [])
              (say "Tolerates up to 2 concurrent node failures with only 1.5x storage overhead."))))
        & (element "div"
            (prop "className"
                "flex items-center gap-2 bg-[#F8FAFC] p-1 rounded-lg border border-[#E2E8F0]"
              ∷ [])
            ((element "button"
                (on "onClick" (set_mode erasure)
                  ∷ prop "className" (
                      cat "px-3 py-1.5 rounded-md text-xs font-mono font-bold transition-all " (
                        (if is_erasure s.mode
                          then "bg-[#0077B6] text-white shadow-2xs"
                          else "text-[#64748B] hover:text-[#03045E]")))
                  ∷ [])
                (say "Erasure Coding (1.5x)"))
              & (element "button"
                  (on "onClick" (set_mode replication)
                    ∷ prop "className" (
                        cat "px-3 py-1.5 rounded-md text-xs font-mono font-bold transition-all " (
                          (if not (is_erasure s.mode)
                            then "bg-[#0077B6] text-white shadow-2xs"
                            else "text-[#64748B] hover:text-[#03045E]")))
                    ∷ [])
                  (say "Replication (3.0x)")))))

shard_grid : Lab → Node Event
unfolding shard_card
shard_grid s = element "div" (prop "className" "space-y-3" ∷ []) (
    (element "div" (prop "className" "flex items-center justify-between font-mono text-xs" ∷ []) (
      (element "span" (prop "className" "text-[#64748B]" ∷ [])
        (say "Click any node/shard to toggle failure (K=4, M=2)"))
      & (element "button"
          (on "onClick" restore
            ∷ prop "className" "flex items-center gap-1 text-[#0077B6] hover:underline"
            ∷ [])
          ((element "RefreshCw" (prop "className" "w-3 h-3" ∷ []) nothing)
            & (element "span" [] (say "Restore All Shards"))))))
    & (element "div" (prop "className" "grid grid-cols-2 sm:grid-cols-3 lg:grid-cols-6 gap-3" ∷ [])
        (each s.shards shard_card)))

status : Lab → Node Event
status s =
    element "div"
      (prop "className" (
          cat "p-4 rounded-xl border flex items-center justify-between font-mono text-xs " (
            (if can_reconstruct s.shards
              then "bg-[#E8F8F0] border-[#A8E6CF] text-[#22A06B]"
              else "bg-[#FEECEB] border-[#FECACA] text-[#E5484D]")))
        ∷ [])
      ((element "div" (prop "className" "flex items-center gap-3" ∷ []) (
          (if can_reconstruct s.shards
            then element "ShieldCheck" (prop "className" "w-5 h-5 text-[#22A06B] shrink-0" ∷ [])
                nothing
            else element "X" (prop "className" "w-5 h-5 text-[#E5484D] shrink-0" ∷ []) nothing)
          & (element "div" [] (
              (element "span" (prop "className" "font-bold block text-sm" ∷ []) (
                say (
                  if can_reconstruct s.shards
                  then cat "Object Fully Reconstructible ("
                      (cat (show (alive_count s.shards)) "/4 required shards available)")
                  else cat "Permanent Data Loss ("
                      (cat (show (failed_count s.shards)) " failed > M=2 parity limit)"))))
              & (element "span" (prop "className" "text-[11px] text-[#475569]" ∷ []) (
                  say (
                    if can_reconstruct s.shards
                    then "Cauchy / Vandermonde Galois Field GF(2^8) matrix multiplication reconstructs all lost data."
                    else "Too many simultaneous shard failures to mathematically invert the generator matrix.")))))))
        & (element "span"
            (prop "className"
                "text-[10px] font-bold px-2 py-1 rounded bg-white border border-current"
              ∷ [])
            ((say (show (failed_count s.shards))) & (say " Node Failures"))))

-- The panel of the replication mode.
comparison : Node Event
comparison =
    element "div" (prop "className" "grid grid-cols-1 md:grid-cols-2 gap-4 font-mono text-xs" ∷ [])
      ((element "div"
          (prop "className" "p-4 rounded-xl border border-[#CBD5E1] bg-[#F8FAFC] space-y-3" ∷ [])
          ((element "span"
              (prop "className" "text-xs font-bold text-[#03045E] block uppercase" ∷ [])
              (say "3-Way Full Replication (N=3)"))
            & (element "div" (prop "className" "space-y-1 text-[#64748B] text-[11px]" ∷ []) (
                (element "div" [] (
                  (say "• Storage Footprint: ")
                  & (element "b" (prop "className" "text-[#03045E]" ∷ []) (say "3.0x"))
                  & (say " (300% storage overhead)")))
                & (element "div" [] (
                    (say "• CPU Overhead: ")
                    & (element "b" (prop "className" "text-[#22A06B]" ∷ []) (say "Minimal"))
                    & (say " (raw byte copying)")))
                & (element "div" [] (
                    (say "• Read Throughput: ")
                    & (element "b" (prop "className" "text-[#22A06B]" ∷ []) (say "Highest"))
                    & (say " (stream from any replica)")))
                & (element "div" [] (
                    (say "• Max Node Failures: ")
                    & (element "b" (prop "className" "text-[#0077B6]" ∷ [])
                        (say "2 of 3 nodes"))))))))
        & (element "div"
            (prop "className" "p-4 rounded-xl border border-[#00B4D8] bg-[#CAF0F8] space-y-3" ∷ [])
            ((element "span"
                (prop "className" "text-xs font-bold text-[#0077B6] block uppercase" ∷ [])
                (say "Reed-Solomon Erasure Coding (K=4, M=2)"))
              & (element "div" (prop "className" "space-y-1 text-[#03045E] text-[11px]" ∷ []) (
                  (element "div" [] (
                    (say "• Storage Footprint: ")
                    & (element "b" (prop "className" "text-[#22A06B]" ∷ []) (say "1.5x"))
                    & (say " (50% storage overhead)")))
                  & (element "div" [] (
                      (say "• CPU Overhead: ")
                      & (element "b" (prop "className" "text-[#D97706]" ∷ []) (say "Moderate"))
                      & (say " (Galois matrix math)")))
                  & (element "div" [] (
                      (say "• Read Reconstruction: ")
                      & (element "b" (prop "className" "text-[#64748B]" ∷ [])
                          (say "On failure only"))))
                  & (element "div" [] (
                      (say "• Max Node Failures: ")
                      & (element "b" (prop "className" "text-[#0077B6]" ∷ [])
                          (say "2 of 6 nodes")))))))))

unfoldable pub view : Lab → Node Event
unfolding header shard_grid status comparison
view s =
    element "div"
      (prop "className"
          "p-4 sm:p-6 bg-white rounded-2xl border border-[#CBD5E1] shadow-xs space-y-6"
        ∷ [])
      ((header s) & (if is_erasure s.mode then (shard_grid s & status s) else comparison))
