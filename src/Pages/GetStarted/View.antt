-- ===== src/Pages/GetStarted/View.antt =====
-- documentation/components/cta/GetStartedView.tsx: what it shows.
pub mod Builder
use cloud_weave.Prelude.{String, Bool, true, false, not, List, [], ◌∷◌, same, if◌then◌else◌, cat}
use cloud_weave.Html.{Node, prop, fields, on, nothing, say, element, ◌&◌, each, when}
use cloud_weave.Pages.GetStarted.{
  ClusterSize, one_node, three_node, five_node, StorageMode, replication, erasure, SdkTab, aws_cli,
  python, go, cweave, Setup, Event, copy_one_liner, set_cluster_size, set_storage_mode,
  set_enable_mtls, set_sdk_tab, is_replication, generate_compose,
}
use cloud_weave.Pages.GetStarted.View.Builder.{builder, integration}

unfoldable pub hero : Setup → Node Event
hero s = element "div" (prop "className" "text-center space-y-4 max-w-3xl mx-auto" ∷ []) (
    (element "motion.div"
      (fields "initial" (("opacity", "0") ∷ ("scale", "0.95") ∷ [])
        ∷ fields "animate" (("opacity", "1") ∷ ("scale", "1") ∷ [])
        ∷ prop "className"
            "inline-flex items-center gap-1.5 px-3 py-1 rounded-full border border-[#90E0EF] bg-[#CAF0F8] text-[11px] font-mono font-bold text-[#0E7FB4]"
        ∷ [])
      ((element "Sparkles" (prop "className" "w-3.5 h-3.5" ∷ []) nothing)
        & (element "span" [] (say "PRODUCTION-READY DISTRIBUTED S3 STORAGE"))))
    & (element "motion.h1"
        (fields "initial" (("opacity", "0") ∷ ("y", "10") ∷ [])
          ∷ fields "animate" (("opacity", "1") ∷ ("y", "0") ∷ [])
          ∷ prop "className"
              "text-4xl sm:text-5xl font-extrabold tracking-tight text-[#03045E] leading-tight"
          ∷ [])
        ((say "Deploy CloudWeave ")
          & (element "span" (prop "className" "text-[#0E7FB4]" ∷ []) (say "in Seconds."))))
    & (element "motion.p"
        (fields "initial" (("opacity", "0") ∷ ("y", "10") ∷ [])
          ∷ fields "animate" (("opacity", "1") ∷ ("y", "0") ∷ [])
          ∷ fields "transition" (("delay", "0.1") ∷ [])
          ∷ prop "className" "text-base text-[#64748B] max-w-2xl mx-auto leading-relaxed"
          ∷ [])
        (say
          "Zero cloud lock-in. Full Amazon S3 API compatibility. FastCDC rolling chunking, consistent hashing, quorum replication, and automatic self-healing."))
    & (element "motion.div"
        (fields "initial" (("opacity", "0") ∷ ("y", "15") ∷ [])
          ∷ fields "animate" (("opacity", "1") ∷ ("y", "0") ∷ [])
          ∷ fields "transition" (("delay", "0.15") ∷ [])
          ∷ prop "className" "pt-2 max-w-2xl mx-auto"
          ∷ [])
        (element "div"
          (prop "className"
              "flex items-center justify-between p-3 rounded-2xl border-2 border-[#0E7FB4] bg-[#F8FAFC] shadow-md font-mono text-xs text-left"
            ∷ [])
          ((element "div"
              (prop "className" "flex items-center gap-2.5 overflow-x-auto text-[#03045E]" ∷ [])
              ((element "span" (prop "className" "text-[#0E7FB4] font-bold select-none" ∷ [])
                  (say "$"))
                & (element "span" (prop "className" "truncate" ∷ [])
                    (say "docker run -d -p 9000:9000 ghcr.io/jhanvi857/cloudweave:latest"))))
            & (element "button"
                (on "onClick" copy_one_liner
                  ∷ prop "className"
                      "flex items-center gap-1.5 shrink-0 px-3 py-1.5 rounded-xl bg-[#0E7FB4] text-white font-bold hover:bg-[#03045E] transition-colors"
                  ∷ [])
                ((if s.copied_one_liner
                    then element "Check" (prop "className" "w-3.5 h-3.5" ∷ []) nothing
                    else element "Copy" (prop "className" "w-3.5 h-3.5" ∷ []) nothing)
                  & (element "span" []
                      (say (if s.copied_one_liner then "Copied" else "Copy")))))))))

unfoldable pub pillars : Node Event
pillars = element "div" (prop "className" "grid grid-cols-1 md:grid-cols-3 gap-5" ∷ []) (
    (element "div"
      (prop "className"
          "p-6 rounded-2xl border border-[#CBD5E1] bg-white shadow-xs space-y-2 hover:border-[#0E7FB4] transition-all"
        ∷ [])
      ((element "div"
          (prop "className"
              "flex h-10 w-10 items-center justify-center rounded-xl bg-[#CAF0F8] text-[#0E7FB4]"
            ∷ [])
          (element "Server" (prop "className" "w-5 h-5" ∷ []) nothing))
        & (element "h3" (prop "className" "font-bold text-base text-[#03045E]" ∷ [])
            (say "S3 REST API & SigV4"))
        & (element "p" (prop "className" "text-xs text-[#64748B] leading-relaxed" ∷ []) (
            say
              "Drop-in compatibility with AWS CLI, boto3, MinIO Client, and standard S3 SDKs. Works out of the box with zero custom driver requirements."))))
    & (element "div"
        (prop "className"
            "p-6 rounded-2xl border border-[#CBD5E1] bg-white shadow-xs space-y-2 hover:border-[#0E7FB4] transition-all"
          ∷ [])
        ((element "div"
            (prop "className"
                "flex h-10 w-10 items-center justify-center rounded-xl bg-[#E8F8F0] text-[#22A06B]"
              ∷ [])
            (element "Zap" (prop "className" "w-5 h-5" ∷ []) nothing))
          & (element "h3" (prop "className" "font-bold text-base text-[#03045E]" ∷ [])
              (say "FastCDC & CAS Dedup"))
          & (element "p" (prop "className" "text-xs text-[#64748B] leading-relaxed" ∷ []) (
              say
                "Rolling Gear hash isolates byte boundary shifts. SHA-256 addresses eliminate duplicate disk blocks, achieving 485 MB/s deduplicated uploads."))))
    & (element "div"
        (prop "className"
            "p-6 rounded-2xl border border-[#CBD5E1] bg-white shadow-xs space-y-2 hover:border-[#0E7FB4] transition-all"
          ∷ [])
        ((element "div"
            (prop "className"
                "flex h-10 w-10 items-center justify-center rounded-xl bg-[#CAF0F8] text-[#0E7FB4]"
              ∷ [])
            (element "ShieldCheck" (prop "className" "w-5 h-5" ∷ []) nothing))
          & (element "h3" (prop "className" "font-bold text-base text-[#03045E]" ∷ [])
              (say "Self-Healing Anti-Entropy"))
          & (element "p" (prop "className" "text-xs text-[#64748B] leading-relaxed" ∷ []) (
              say
                "Sub-second failure detection with 500ms gossip pings. Background replica repair workers restore under-replicated chunks automatically.")))))

unfoldable pub view : Setup → Node Event
unfolding hero pillars builder integration
view s =
    element "div" (prop "className" "w-full max-w-5xl mx-auto space-y-16 py-6 font-sans" ∷ [])
      ((hero s) & (pillars) & (builder s) & (integration s))
