-- ===== src/Playground/Recovery/View.antt =====
-- documentation/components/playground/FailureRecoverySimulator.tsx: what the component shows.
use cloud_weave.Prelude.{ℕ, String, Bool, true, false, [], ◌∷◌, if◌then◌else◌, show, cat}
use cloud_weave.Html.{Node, prop, num, fields, on, nothing, say, element, ◌&◌, each, each_from}
use cloud_weave.Playground.Recovery.{
  Stage, Status, EventKind, ClusterNode, TimelineEvent, Simulator, Event, simulate_failure, reset,
}

abbrev pub is_idle : Stage → Bool
is_idle Stage.idle = true
is_idle Stage.failed = false
is_idle Stage.detected = false
is_idle Stage.repairing = false
is_idle Stage.recovered = false

abbrev pub is_failed : Status → Bool
is_failed Status.failed = true
is_failed Status.healthy = false
is_failed Status.warning = false
is_failed Status.repairing = false

abbrev pub is_repairing : Status → Bool
is_repairing Status.repairing = true
is_repairing Status.healthy = false
is_repairing Status.warning = false
is_repairing Status.failed = false

abbrev pub is_warning : Status → Bool
is_warning Status.warning = true
is_warning Status.healthy = false
is_warning Status.failed = false
is_warning Status.repairing = false

abbrev status_text : Status → String
status_text Status.healthy = "healthy"
status_text Status.warning = "warning"
status_text Status.failed = "failed"
status_text Status.repairing = "repairing"

-- The colour of an entry of the timeline.
unfoldable pub type_color : EventKind → String
type_color EventKind.fail = "text-[#E5484D]"
type_color EventKind.warn = "text-[#D97706]"
type_color EventKind.success = "text-[#22A06B]"
type_color EventKind.info = "text-[#64748B]"

unfoldable pub node_card : ClusterNode → Node Event
node_card node =
    let is_dead = is_failed node.status in
    let is_repairing_now = is_repairing node.status in
    let is_warn = is_warning node.status in
    element "div"
      (prop "key" node.id
        ∷ prop "className" (
            cat "p-3.5 rounded-xl border transition-all " (
              (if is_dead
                then "border-[#FECACA] bg-[#FEECEB] animate-pulse"
                else if is_repairing_now
                then "border-[#FDE68A] bg-[#FFF8E6]"
                else if is_warn
                then "border-[#FDE68A] bg-white"
                else "border-[#CBD5E1] bg-white")))
        ∷ [])
      ((element "div" (prop "className" "flex items-center justify-between" ∷ []) (
          (element "span" (prop "className" "text-xs font-mono font-bold text-[#03045E]" ∷ [])
            (say node.name))
          & (element "span"
              (prop "className" (
                  cat "h-2.5 w-2.5 rounded-full " (
                    (if is_dead
                      then "bg-[#E5484D]"
                      else if is_repairing_now
                      then "bg-[#F59E0B] animate-ping"
                      else "bg-[#22A06B]")))
                ∷ [])
              nothing)))
        & (element "div"
            (prop "className" "mt-2 text-[10px] font-mono text-[#64748B] space-y-1" ∷ [])
            ((element "div" [] (
                (say "IP: ")
                & (element "span" (prop "className" "text-[#03045E] font-semibold" ∷ [])
                    (say node.ip))))
              & (element "div" [] (
                  (say "Chunks: ")
                  & (element "span" (prop "className" "text-[#03045E] font-semibold" ∷ [])
                      (say (show node.chunks)))))
              & (element "div" [] (
                  (say "Disk: ")
                  & (element "span" (prop "className" "text-[#03045E] font-semibold" ∷ [])
                      (say node.storage_used))))))
        & (element "div"
            (prop "className"
                "mt-3 pt-2 border-t border-[#E2E8F0] flex items-center justify-between"
              ∷ [])
            ((element "span"
                (prop "className" (
                    cat "text-[9px] font-mono font-bold uppercase px-1.5 py-0.5 rounded " (
                      (if is_dead
                        then "bg-[#E5484D] text-white"
                        else if is_repairing_now
                        then "bg-[#F59E0B] text-white"
                        else "bg-[#CAF0F8] text-[#0077B6]")))
                  ∷ [])
                (say (status_text node.status)))
              & (element "span" (prop "className" "text-[9px] font-mono text-[#64748B]" ∷ [])
                  (say node.role)))))

unfoldable pub event_row : TimelineEvent → ℕ → Node Event
unfolding type_color
event_row evt idx =
    element "motion.div"
      (num "key" idx
        ∷ fields "initial" (("opacity", "0") ∷ ("x", "-5") ∷ [])
        ∷ fields "animate" (("opacity", "1") ∷ ("x", "0") ∷ [])
        ∷ prop "className" "flex items-start gap-3 py-1 border-b border-[#F1F5F9] last:border-0"
        ∷ [])
      ((element "span" (prop "className" "text-[10px] text-[#94A3B8] shrink-0" ∷ []) (say evt.time))
        & (element "span" (prop "className" (cat "font-medium " ((type_color evt.kind))) ∷ [])
            (say evt.message)))

header : Simulator → Node Event
header s =
    element "div"
      (prop "className"
          "flex flex-col sm:flex-row sm:items-center justify-between gap-4 border-b border-[#E2E8F0] pb-4"
        ∷ [])
      ((element "div" [] (
          (element "div" (prop "className" "flex items-center gap-2" ∷ []) (
            (element "Activity" (prop "className" "w-5 h-5 text-[#0077B6]" ∷ []) nothing)
            & (element "h3" (prop "className" "font-bold text-base text-[#03045E]" ∷ [])
                (say "Kill a Node. Watch the Cluster Recover."))))
          & (element "p" (prop "className" "text-xs text-[#64748B] mt-0.5" ∷ []) (
              say
                "Test CloudWeave's heartbeat failure detection and background self-healing replica worker."))))
        & (element "div" (prop "className" "flex items-center gap-2" ∷ []) (
            if is_idle s.stage
            then element "button"
                (on "onClick" simulate_failure
                  ∷ prop "className"
                      "flex items-center gap-2 rounded-lg bg-[#E5484D] px-4 py-2 text-xs font-bold text-white shadow-xs hover:bg-[#C92A2A] transition-all"
                  ∷ [])
                ((element "AlertOctagon" (prop "className" "w-4 h-4" ∷ []) nothing)
                  & (element "span" [] (say "Simulate Node 3 Failure")))
            else element "button"
                (on "onClick" reset
                  ∷ prop "className"
                      "flex items-center gap-2 rounded-lg border border-[#CBD5E1] bg-white px-4 py-2 text-xs font-semibold text-[#03045E] hover:bg-[#F1F5F9] transition-all"
                  ∷ [])
                ((element "RefreshCw" (prop "className" "w-4 h-4 text-[#0077B6]" ∷ []) nothing)
                  & (element "span" [] (say "Reset Cluster"))))))

health_grid : Simulator → Node Event
unfolding node_card
health_grid s =
    element "div" (prop "className" "grid grid-cols-1 sm:grid-cols-2 lg:grid-cols-5 gap-3" ∷ [])
      (each s.nodes node_card)

timeline : Simulator → Node Event
unfolding event_row
timeline s =
    element "div"
      (prop "className" "rounded-xl border border-[#E2E8F0] bg-[#F8FAFC] p-4 space-y-3" ∷ [])
      ((element "div"
          (prop "className" "flex items-center justify-between border-b border-[#E2E8F0] pb-2" ∷ [])
          ((element "span"
              (prop "className" "text-xs font-mono font-bold uppercase text-[#64748B]" ∷ [])
              (say "Cluster Event Timeline"))
            & (element "span"
                (prop "className" "text-xs font-mono text-[#0077B6] flex items-center gap-1" ∷ [])
                ((element "Activity" (prop "className" "w-3.5 h-3.5" ∷ []) nothing)
                  & (element "span" [] (say "Self-Healing Engine Active"))))))
        & (element "div"
            (prop "className" "space-y-2 max-h-48 overflow-y-auto font-mono text-xs" ∷ [])
            (each_from 0 s.events event_row)))

unfoldable pub view : Simulator → Node Event
unfolding header health_grid timeline
view s =
    element "div"
      (prop "className"
          "p-4 sm:p-6 bg-white rounded-2xl border border-[#CBD5E1] shadow-xs space-y-6"
        ∷ [])
      ((header s) & (health_grid s) & (timeline s))
