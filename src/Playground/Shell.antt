-- ===== src/Playground/Shell.antt =====
-- documentation/components/playground/PlaygroundShell.tsx: the page of the playground for the experiment that
-- its parent holds. An event is the id of the experiment clicked on; the scenes stay elements that are
-- not looked into.
use cloud_weave.Prelude.{String, Bool, true, false, List, [], ◌∷◌, if◌then◌else◌, cat, same}
use cloud_weave.Html.{
  Node, prop, num, fields, on, nothing, say, element, ◌&◌, each, each_from, when,
}

pub record Experiment : Type 0 where
  pub id : String
  pub label : String
  pub icon : String

abbrev pub experiments : List Experiment
experiments =
    record { id = "pipeline"; label = "1. Consistent Hash Ring"; icon = "Play" }
    ∷ record { id = "failure"; label = "2. Failure Recovery (kill -9)"; icon = "Activity" }
    ∷ record { id = "dedup"; label = "3. FastCDC Deduplication"; icon = "Layers" }
    ∷ record { id = "erasure"; label = "4. Reed-Solomon Erasure"; icon = "Cpu" }
    ∷ []

pub record Telemetry : Type 0 where
  pub label : String
  pub val : String
  pub highlight : Bool

abbrev pub live_telemetry : List Telemetry
live_telemetry =
    record { label = "Cluster State"; val = "HEALTHY (Quorum 100%)"; highlight = true }
    ∷ record { label = "Virtual Nodes"; val = "150 per host (900 total)"; highlight = false }
    ∷ record { label = "Consistency"; val = "Dynamo N=3, W=2, R=2"; highlight = false }
    ∷ record { label = "FastCDC Window"; val = "16 KB - 256 KB (Gear Hash)"; highlight = false }
    ∷ record { label = "CAS Hash Algo"; val = "SHA-256 (64-byte hex digest)"; highlight = false }
    ∷ record { label = "Durability"; val = "Sync WAL + Fsync flush"; highlight = false }
    ∷ []

pub record LogLine : Type 0 where
  pub time : String
  pub text : String

abbrev pub live_event_logs : List LogLine
live_event_logs =
    record { time = "14:22:01"; text = "SigV4 validated: PUT /dataset.parquet (1.8 GB)" }
    ∷ record { time = "14:22:02"; text = "FastCDC chunking: 112 variable shards created" }
    ∷ record { time = "14:22:03"; text = "SHA-256 CAS: 18 chunks deduplicated (0 disk I/O)" }
    ∷ record { time = "14:22:04"; text = "Consistent ring: 94 chunks routed to primary nodes" }
    ∷ record { time = "14:22:05"; text = "Quorum fan-out: W=2/2 ACKs confirmed via mTLS" }
    ∷ record { time = "14:22:06"; text = "Manifest committed to WAL · 200 OK returned" }
    ∷ []

unfoldable pub scene : String → Node String
scene active_experiment = element "div" (prop "className" "lg:col-span-8 w-full" ∷ []) (
    element "AnimatePresence" (prop "mode" "wait" ∷ []) (
      element "motion.div"
        (prop "key" active_experiment
          ∷ fields "initial" (("opacity", "0") ∷ ("y", "6") ∷ [])
          ∷ fields "animate" (("opacity", "1") ∷ ("y", "0") ∷ [])
          ∷ fields "exit" (("opacity", "0") ∷ ("y", "-6") ∷ [])
          ∷ fields "transition" (("duration", "0.2") ∷ [])
          ∷ prop "className" "w-full"
          ∷ [])
        ((when (same active_experiment "pipeline") (element "VaultRing3D" [] nothing))
          & (when (same active_experiment "failure") (element "FailureRecovery3D" [] nothing))
          & (when (same active_experiment "dedup") (element "DedupCanvas" [] nothing))
          & (when (same active_experiment "erasure") (element "ErasureCoding3D" [] nothing)))))

unfoldable pub telemetry : Node String
telemetry =
    element "div" (prop "className" "lg:col-span-4 w-full space-y-4 font-mono text-xs" ∷ []) (
      (element "div"
        (prop "className" "p-4 rounded-xl border border-[#26262B] bg-[#19191C] space-y-3" ∷ [])
        ((element "div"
            (prop "className" "flex items-center justify-between border-b border-[#26262B] pb-2"
              ∷ [])
            ((element "div" (prop "className" "flex items-center gap-2" ∷ []) (
                (element "ShieldCheck" (prop "className" "w-4 h-4 text-[#A6A9AE]" ∷ []) nothing)
                & (element "span" (prop "className" "font-bold text-[#EDE8DF]" ∷ [])
                    (say "CLUSTER TELEMETRY"))))
              & (element "span"
                  (prop "className"
                      "text-[10px] text-[#EDE8DF] font-bold px-1.5 py-0.5 rounded bg-[#000000] border border-[#26262B]"
                    ∷ [])
                  (say "6 NODES UP"))))
          & (element "div" (prop "className" "space-y-2 text-[11px]" ∷ []) (
              each_from 0 live_telemetry (λ item i.
                element "div"
                  (num "key" i
                    ∷ prop "className"
                        "flex items-center justify-between py-1 border-b border-[#26262B]/50 last:border-0"
                    ∷ [])
                  ((element "span" (prop "className" "text-[#8B8B8F]" ∷ []) (say item.label))
                    & (element "span"
                        (prop "className" (
                            if item.highlight then "text-[#EDE8DF] font-bold" else "text-[#EDE8DF]")
                          ∷ [])
                        (say item.val))))))))
      & (element "div"
          (prop "className" "p-4 rounded-xl border border-[#26262B] bg-[#19191C] space-y-3" ∷ [])
          ((element "div"
              (prop "className" "flex items-center justify-between border-b border-[#26262B] pb-2"
                ∷ [])
              ((element "div" (prop "className" "flex items-center gap-2" ∷ []) (
                  (element "Clock" (prop "className" "w-4 h-4 text-[#8B8B8F]" ∷ []) nothing)
                  & (element "span" (prop "className" "font-bold text-[#EDE8DF]" ∷ [])
                      (say "EVENT JOURNAL"))))
                & (element "span" (prop "className" "text-[10px] text-[#8B8B8F]" ∷ [])
                    (say "WAL Log"))))
            & (element "div" (prop "className" "space-y-2 text-[10px]" ∷ []) (
                each_from 0 live_event_logs (λ log i.
                  element "div"
                    (num "key" i ∷ prop "className" "flex items-start gap-2 text-[#8B8B8F]" ∷ [])
                    ((element "span" (prop "className" "text-[#A6A9AE] shrink-0 font-bold" ∷ [])
                        (say log.time))
                      & (element "span" (prop "className" "text-[#EDE8DF]/90 leading-tight" ∷ [])
                          (say log.text)))))))))

unfoldable pub view : String → Node String
unfolding scene telemetry
view active_experiment = element "div" (prop "className" "w-full space-y-8 font-sans" ∷ []) (
    (element "div" (prop "className" "text-center space-y-3 max-w-3xl mx-auto" ∷ []) (
      (element "div"
        (prop "className"
            "inline-flex items-center gap-2 px-3 py-1 text-xs font-mono border border-[#26262B] rounded-full bg-[#19191C] text-[#A6A9AE]"
          ∷ [])
        ((element "span" (prop "className" "w-2 h-2 rounded-full bg-[#7A1F2B]" ∷ []) nothing)
          & (element "span" [] (say "Interactive Storage Simulator"))))
      & (element "h1"
          (prop "className"
              "text-3xl sm:text-4xl font-serif font-bold tracking-tight text-[#EDE8DF]"
            ∷ [])
          (say "Inspect Distributed Mechanics in Real Time"))
      & (element "p" (prop "className" "text-sm font-mono text-[#8B8B8F] leading-relaxed" ∷ []) (
          say
            "Switch between interactive experiments to test consistent hashing, node death self-healing, content-defined deduplication, and Reed-Solomon polynomial reconstruction."))))
    & (element "div" (prop "className" "flex items-center justify-center" ∷ []) (
        element "div"
          (prop "className"
              "flex flex-wrap items-center gap-1.5 p-1 rounded-lg bg-[#19191C] border border-[#26262B] font-mono text-xs"
            ∷ [])
          (each experiments (λ exp.
            let is_selected = same active_experiment exp.id in
            element "button"
              (prop "key" exp.id
                ∷ on "onClick" exp.id
                ∷ prop "className" (
                    cat
                      "flex items-center gap-2 px-3.5 py-2 rounded text-xs transition-all cursor-pointer "
                      ((if is_selected
                        then "bg-[#7A1F2B] text-[#EDE8DF] font-bold shadow-xs"
                        else "text-[#8B8B8F] hover:text-[#EDE8DF] hover:bg-[#222226]")))
                ∷ [])
              ((element exp.icon (prop "className" "w-3.5 h-3.5" ∷ []) nothing)
                & (element "span" [] (say exp.label)))))))
    & (element "div" (prop "className" "grid grid-cols-1 lg:grid-cols-12 gap-6 items-start" ∷ [])
        ((scene active_experiment) & (telemetry))))
