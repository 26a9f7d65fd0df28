-- ===== src/Playground/Quorum/View.antt =====
-- documentation/components/playground/QuorumVisualizer.tsx: what the component shows.
use cloud_weave.Prelude.{◌+◌, [], ◌∷◌, if◌then◌else◌, show, cat}
use cloud_weave.Html.{Node, prop, num, on, on_number, nothing, say, element, ◌&◌, each}
use cloud_weave.Playground.Quorum.{
  Quorum, Ack, Event, set_w, set_r, toggle_node_fail, is, acks, write_success, strong_consistency,
}

-- The card of one replica, which toggles the replica when it is clicked.
unfoldable pub card : Quorum → Ack → Node Event
card s ack =
    let is_failed = is s.failed_node ack.node_num in
    element "div"
      (prop "key" ack.node
        ∷ on "onClick" (toggle_node_fail ack.node_num)
        ∷ prop "className" (
            cat "p-3.5 rounded-xl border cursor-pointer transition-all " (
              (if is_failed
                then "border-[#FECACA] bg-[#FEECEB]"
                else "border-[#A8E6CF] bg-[#E8F8F0]")))
        ∷ [])
      ((element "div" (prop "className" "flex items-center justify-between" ∷ []) (
          (element "span" (prop "className" "text-xs font-mono font-bold text-[#03045E]" ∷ [])
            (say ack.node))
          & (element "div"
              (prop "className" (
                  cat
                    "flex h-5 w-5 items-center justify-center rounded-full text-white text-xs font-bold "
                    ((if is_failed then "bg-[#E5484D]" else "bg-[#22A06B]")))
                ∷ [])
              (if is_failed
                then element "X" (prop "className" "w-3.5 h-3.5" ∷ []) nothing
                else element "Check" (prop "className" "w-3.5 h-3.5" ∷ []) nothing))))
        & (element "div" (prop "className" "mt-2 text-[11px] font-mono" ∷ []) (
            if is_failed
            then element "span" (prop "className" "text-[#E5484D] font-bold" ∷ [])
                (say "Unreachable (Click to toggle)")
            else element "span" (prop "className" "text-[#22A06B] font-bold" ∷ [])
                (say "ACK Received (fsync OK)"))))

header : Quorum → Node Event
header s =
    element "div"
      (prop "className"
          "flex flex-col sm:flex-row sm:items-center justify-between gap-4 border-b border-[#E2E8F0] pb-4"
        ∷ [])
      ((element "div" [] (
          (element "div" (prop "className" "flex items-center gap-2" ∷ []) (
            (element "ShieldCheck" (prop "className" "w-5 h-5 text-[#0077B6]" ∷ []) nothing)
            & (element "h3" (prop "className" "font-bold text-base text-[#03045E]" ∷ [])
                (say "Tunable Quorum Consensus (N / W / R)"))))
          & (element "p" (prop "className" "text-xs text-[#64748B] mt-0.5" ∷ []) (
              say
                "Dynamo-style quorum ensures durability and availability trade-offs can be tuned per-bucket."))))
        & (element "div" (prop "className" "flex items-center gap-3" ∷ []) (
            (element "div"
              (prop "className"
                  "px-3 py-1.5 rounded-lg bg-[#CAF0F8] border border-[#90E0EF] text-xs font-mono font-bold text-[#0077B6]"
                ∷ [])
              ((say "N = ") & (say (show s.n)) & (say " Replicas")))
            & (element "div"
                (prop "className" (
                    cat "px-3 py-1.5 rounded-lg border text-xs font-mono font-bold " (
                      (if write_success s
                        then "bg-[#E8F8F0] border-[#A8E6CF] text-[#22A06B]"
                        else "bg-[#FEECEB] border-[#FECACA] text-[#E5484D]")))
                  ∷ [])
                (say
                  (if write_success s then "WRITE QUORUM ACHIEVED" else "WRITE QUORUM FAILED"))))))

sliders : Quorum → Node Event
sliders s =
    element "div"
      (prop "className"
          "grid grid-cols-1 md:grid-cols-2 gap-4 bg-[#F8FAFC] p-4 rounded-xl border border-[#E2E8F0]"
        ∷ [])
      ((element "div" [] (
          (element "div"
            (prop "className" "flex items-center justify-between mb-1.5 text-xs font-mono" ∷ [])
            ((element "span" (prop "className" "font-semibold text-[#03045E]" ∷ [])
                (say "Write Quorum (W)"))
              & (element "span"
                  (prop "className"
                      "font-bold text-[#0077B6] bg-white px-2 py-0.5 rounded border border-[#CBD5E1]"
                    ∷ [])
                  ((say "W = ") & (say (show s.w))))))
          & (element "input"
              (prop "type" "range"
                ∷ prop "min" "1"
                ∷ prop "max" "3"
                ∷ num "value" s.w
                ∷ on_number "onChange" set_w
                ∷ prop "className"
                    "w-full h-2 bg-[#CBD5E1] rounded-lg appearance-none cursor-pointer accent-[#0077B6]"
                ∷ [])
              nothing)
          & (element "span" (prop "className" "text-[10px] text-[#64748B] block mt-1" ∷ []) (
              say
                "Number of storage replicas required to synchronously acknowledge write before 201 response."))))
        & (element "div" [] (
            (element "div"
              (prop "className" "flex items-center justify-between mb-1.5 text-xs font-mono" ∷ [])
              ((element "span" (prop "className" "font-semibold text-[#03045E]" ∷ [])
                  (say "Read Quorum (R)"))
                & (element "span"
                    (prop "className"
                        "font-bold text-[#0077B6] bg-white px-2 py-0.5 rounded border border-[#CBD5E1]"
                      ∷ [])
                    ((say "R = ") & (say (show s.r))))))
            & (element "input"
                (prop "type" "range"
                  ∷ prop "min" "1"
                  ∷ prop "max" "3"
                  ∷ num "value" s.r
                  ∷ on_number "onChange" set_r
                  ∷ prop "className"
                      "w-full h-2 bg-[#CBD5E1] rounded-lg appearance-none cursor-pointer accent-[#0077B6]"
                  ∷ [])
                nothing)
            & (element "span" (prop "className" "text-[10px] text-[#64748B] block mt-1" ∷ []) (
                say
                  "Number of replicas queried during GET to compare vector clocks and return freshest version.")))))

diagram : Quorum → Node Event
unfolding card acks
diagram s = element "div" (prop "className" "flex flex-col items-center py-2 space-y-4" ∷ []) (
    (element "div" (prop "className" "flex flex-col items-center" ∷ []) (
      (element "div"
        (prop "className"
            "px-5 py-2.5 rounded-xl border border-[#0077B6] bg-[#CAF0F8] text-center shadow-xs"
          ∷ [])
        ((element "span"
            (prop "className" "text-[10px] font-mono font-bold text-[#0077B6] uppercase block" ∷ [])
            (say "Coordinator Node"))
          & (element "span" (prop "className" "text-xs font-mono font-bold text-[#03045E]" ∷ [])
              (say "Fan-out write stream to N=3 nodes"))))
      & (element "div" (prop "className" "h-6 w-0.5 bg-[#00B4D8]" ∷ []) nothing)))
    & (element "div" (prop "className" "grid grid-cols-1 sm:grid-cols-3 gap-4 w-full" ∷ [])
        (each (acks s) (λ ack. card s ack))))

banner : Quorum → Node Event
banner s =
    element "div"
      (prop "className" (
          cat "p-3.5 rounded-xl border flex items-start gap-3 text-xs font-mono " (
            (if strong_consistency s
              then "bg-[#E8F8F0] border-[#A8E6CF] text-[#22A06B]"
              else "bg-[#FFF8E6] border-[#FDE68A] text-[#D97706]")))
        ∷ [])
      ((element "div" (prop "className" "mt-0.5" ∷ []) (
          if strong_consistency s
          then element "ShieldCheck" (prop "className" "w-4 h-4 text-[#22A06B]" ∷ []) nothing
          else element "AlertTriangle" (prop "className" "w-4 h-4 text-[#D97706]" ∷ []) nothing))
        & (element "div" (prop "className" "flex-1" ∷ []) (
            (element "div" (prop "className" "font-bold" ∷ []) (
              say (
                if strong_consistency s
                then cat "Strong Consistency Overlap Guaranteed (W + R = "
                    (cat (show (s.w + s.r)) (cat " > N = " (cat (show s.n) ")")))
                else cat "Eventual Consistency / Overlap Gap (W + R = "
                    (cat (show (s.w + s.r)) (cat " ≤ N = " (cat (show s.n) ")"))))))
            & (element "p" (prop "className" "text-[11px] mt-0.5 text-[#475569]" ∷ []) (
                say (
                  if strong_consistency s
                  then "At least one replica will overlap in both write and read quorums, guaranteeing reads always observe the latest vector clock."
                  else "Favors extreme write availability during partitions, but concurrent reads may observe stale data until anti-entropy reconciles."))))))

-- The whole component.
unfoldable pub view : Quorum → Node Event
unfolding header sliders diagram banner
view s =
    element "div"
      (prop "className"
          "p-4 sm:p-6 bg-white rounded-2xl border border-[#CBD5E1] shadow-xs space-y-6"
        ∷ [])
      ((header s) & (sliders s) & (diagram s) & (banner s))
