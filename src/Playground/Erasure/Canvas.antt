-- ===== src/Playground/Erasure/Canvas.antt =====
-- documentation/components/canvas/ErasureCanvas.tsx: what it shows of the six shards.
use Prim.Native.Char.{code}
use cloud_weave.Prelude.{String, not, List, [], ◌∷◌, ◌-◌, ◌==◌, if◌then◌else◌, show, cat}
use cloud_weave.Html.{Node, prop, on, nothing, say, element, ◌&◌, each}
use cloud_weave.Playground.Erasure.{Shard, alive_count, can_reconstruct, Event, toggle, restore}

-- `s.split(' ')[0]`
unfoldable pub first_word : String → String
first_word String.[] = ""
first_word (String.◌∷◌ c s) =
    let rest = first_word s in if code c == 32 then "" else String.◌∷◌ c rest

unfoldable pub board_card : Shard → Node Event
unfolding first_word
board_card shard =
    element "div"
      (prop "key" shard.id
        ∷ on "onClick" (toggle shard.id)
        ∷ prop "className" (
            cat "p-3.5 rounded-xl border cursor-pointer text-center transition-all " (
              (if not shard.alive
                then "border-[#E5484D]/40 bg-[#FFF1F2]"
                else "border-[#CBD5E1] bg-[#F8FAFC] hover:border-[#0077B6]/50 shadow-2xs")))
        ∷ [])
      ((element "div" (prop "className" "flex items-center justify-between" ∷ []) (
          (element "span" (prop "className" "font-bold text-[#03045E]" ∷ [])
            (say (first_word shard.name)))
          & (element "div"
              (prop "className" (
                  cat "h-4 w-4 rounded-full flex items-center justify-center text-[10px] " (
                    (if shard.alive
                      then "bg-[#22A06B] text-white font-bold"
                      else "bg-[#E5484D] text-white font-bold")))
                ∷ [])
              (if shard.alive
                then element "Check" (prop "className" "w-2.5 h-2.5" ∷ []) nothing
                else element "X" (prop "className" "w-2.5 h-2.5" ∷ []) nothing))))
        & (element "div" (prop "className" "mt-2 text-[10px] text-[#64748B]" ∷ []) (
            (element "div" [] (say shard.node))
            & (element "div"
                (prop "className" (
                    cat "font-bold mt-0.5 "
                      ((if shard.alive then "text-[#03045E]" else "text-[#E5484D]")))
                  ∷ [])
                (say (if shard.alive then "Online" else "LOST"))))))

board_header : Node Event
board_header =
    element "div"
      (prop "className"
          "w-full flex items-center justify-between border-b border-[#E2E8F0] pb-3 font-mono text-xs"
        ∷ [])
      ((element "div" (prop "className" "flex items-center gap-2" ∷ []) (
          (element "Cpu" (prop "className" "w-4 h-4 text-[#0077B6]" ∷ []) nothing)
          & (element "span" (prop "className" "font-bold text-[#03045E]" ∷ [])
              (say "REED-SOLOMON ERASURE CODING (K=4, M=2)"))))
        & (element "button"
            (on "onClick" restore
              ∷ prop "className"
                  "flex items-center gap-1.5 text-xs text-[#0077B6] hover:underline transition-colors font-bold cursor-pointer"
              ∷ [])
            ((element "RefreshCw" (prop "className" "w-3.5 h-3.5" ∷ []) nothing)
              & (element "span" [] (say "Restore Shards")))))

board_grid : List Shard → Node Event
unfolding board_card
board_grid shards =
    element "div" (prop "className" "w-full max-w-2xl font-mono text-xs space-y-2" ∷ []) (
      (element "span"
        (prop "className" "text-[11px] text-[#64748B] uppercase font-bold block text-center mb-2"
          ∷ [])
        (say "Click any shard to simulate node failure"))
      & (element "div"
          (prop "className" "grid grid-cols-2 sm:grid-cols-3 lg:grid-cols-6 gap-3" ∷ [])
          (each shards board_card)))

board_status : List Shard → Node Event
board_status shards =
    element "div"
      (prop "className" (
          cat
            "w-full max-w-xl text-center py-3 px-6 rounded-full border font-mono text-xs font-bold shadow-2xs "
            ((if can_reconstruct shards
              then "border-[#22A06B]/40 bg-[#E8F8F0] text-[#22A06B]"
              else "border-[#E5484D]/40 bg-[#FFF1F2] text-[#E5484D]")))
        ∷ [])
      (say (
        if can_reconstruct shards
        then cat "Object reconstructible (" (
            cat (show (alive_count shards)) "/4 required shards available - 1.5x storage overhead)")
        else cat "Data loss: "
            (cat (show (6 - alive_count shards)) " node failures exceeds M=2 parity limit")))

unfoldable pub board : List Shard → Node Event
unfolding board_header board_grid board_status
board shards =
    element "div"
      (prop "className"
          "flex flex-col items-center justify-between w-full min-h-[560px] bg-white rounded-2xl border border-[#E2E8F0] shadow-sm p-6 select-none relative space-y-6 font-sans"
        ∷ [])
      ((board_header) & (board_grid shards) & (board_status shards))
