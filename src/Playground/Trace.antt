-- ===== src/Playground/Trace.antt =====
-- documentation/components/playground/RequestTrace.tsx: the phases of a request. The state, and an event, is
-- the phase chosen.
use cloud_weave.Prelude.{
  Option, get_elem?, ℕ, String, List, [], ◌∷◌, ltb, if◌then◌else◌, show, cat, same,
}
use cloud_weave.Html.{Node, prop, on, nothing, say, element, ◌&◌, each}

pub record TraceEvent : Type 0 where
  pub id : String
  pub offset_ms : ℕ
  pub label : String
  pub component : String
  pub detail : String
  pub icon : String

unfoldable pub trace_events : List TraceEvent
trace_events =
    record {
      id = "1";
      offset_ms = 0;
      label = "API request received";
      component = "S3 Compatibility Layer";
      detail = "Received HTTP PUT /bucket/video.mp4 with Content-Length: 62914560";
      icon = "Activity";
    }
    ∷ record {
      id = "2";
      offset_ms = 5;
      label = "Metadata created";
      component = "Metadata Engine";
      detail = "Initialized pending manifest in memory & registered in InFlightRegistry";
      icon = "HardDrive";
    }
    ∷ record {
      id = "3";
      offset_ms = 11;
      label = "FastCDC started";
      component = "FastCDC Chunker";
      detail = "Rolling Gear Hash chunking initialized with target size 16MB";
      icon = "Layers";
    }
    ∷ record {
      id = "4";
      offset_ms = 18;
      label = "Chunk generated";
      component = "Streaming Pipeline";
      detail = "Generated 4 variable-sized chunks [12MB, 18MB, 9MB, 21MB]";
      icon = "Layers";
    }
    ∷ record {
      id = "5";
      offset_ms = 19;
      label = "SHA-256 calculated";
      component = "CAS Crypto";
      detail = "Computed hexadecimal SHA-256 content addresses for chunk verification";
      icon = "HardDrive";
    }
    ∷ record {
      id = "6";
      offset_ms = 21;
      label = "Placement selected";
      component = "Consistent Hash Ring";
      detail = "Mapped hashes against 150 virtual nodes to determine N=3 primary & replicas";
      icon = "Server";
    }
    ∷ record {
      id = "7";
      offset_ms = 25;
      label = "Replica written";
      component = "DiskStore Transport";
      detail = "Parallel worker pool streamed chunk data across persistent keep-alive connections";
      icon = "Server";
    }
    ∷ record {
      id = "8";
      offset_ms = 31;
      label = "Quorum achieved";
      component = "Quorum Coordinator";
      detail = "Received W=2 acknowledgments from Node 2 and Node 3";
      icon = "ShieldCheck";
    }
    ∷ record {
      id = "9";
      offset_ms = 33;
      label = "WAL committed";
      component = "Write-Ahead Log";
      detail = "Appended manifest entry to metadata.wal with synchronous fsync() disk flush";
      icon = "HardDrive";
    }
    ∷ record {
      id = "10";
      offset_ms = 35;
      label = "Response returned";
      component = "HTTP S3 API";
      detail = "Returned HTTP 201 Created with ETag: \"cw-8f3a2c41-v1\"";
      icon = "CheckCircle";
    }
    ∷ []

-- traceEvents[0], which is chosen at first.
unfoldable pub initial : Option TraceEvent
unfolding trace_events
initial = get_elem? trace_events 0

-- `String(n).padStart(2, '0')`
abbrev pub pad_two : ℕ → String
pad_two n = if ltb n 10 then cat "0" (show n) else show n

unfoldable pub timeline : TraceEvent → Node TraceEvent
unfolding trace_events
timeline selected =
    element "div" (prop "className" "lg:col-span-7 space-y-2 font-mono text-xs" ∷ []) (
      each trace_events (λ evt.
        let is_selected = same selected.id evt.id in
        element "button"
          (prop "key" evt.id
            ∷ on "onClick" evt
            ∷ prop "className" (
                cat
                  "w-full flex items-center justify-between p-2.5 rounded-lg border text-left transition-all "
                  ((if is_selected
                    then "border-[#00B4D8] bg-[#CAF0F8] text-[#03045E] shadow-2xs font-semibold"
                    else "border-[#E2E8F0] bg-white text-[#475569] hover:bg-[#F8FAFC]")))
            ∷ [])
          ((element "div" (prop "className" "flex items-center gap-3" ∷ []) (
              (element "span"
                (prop "className" "w-12 text-[11px] font-bold text-[#0077B6] shrink-0" ∷ [])
                ((say "+") & (say (pad_two evt.offset_ms)) & (say " ms")))
              & (element "div" (prop "className" "flex items-center gap-2" ∷ []) (
                  (element evt.icon
                    (prop "className" (
                        cat "w-3.5 h-3.5 "
                          ((if is_selected then "text-[#0077B6]" else "text-[#64748B]")))
                      ∷ [])
                    nothing)
                  & (element "span" (prop "className" "text-xs" ∷ []) (say evt.label))))))
            & (element "span" (prop "className" "text-[10px] text-[#64748B] hidden sm:block" ∷ [])
                (say evt.component)))))

unfoldable pub inspector : TraceEvent → Node TraceEvent
inspector selected =
    element "div"
      (prop "className"
          "lg:col-span-5 flex flex-col justify-between p-5 rounded-xl border border-[#CBD5E1] bg-[#F8FAFC]"
        ∷ [])
      ((element "div" [] (
          (element "div"
            (prop "className" "flex items-center justify-between border-b border-[#E2E8F0] pb-3"
              ∷ [])
            ((element "span"
                (prop "className" "text-[10px] font-mono font-bold uppercase text-[#0077B6]" ∷ [])
                (say "Phase Inspector"))
              & (element "span"
                  (prop "className"
                      "text-xs font-mono font-bold px-2 py-0.5 rounded bg-white border border-[#CBD5E1] text-[#03045E]"
                    ∷ [])
                  ((say "+") & (say (show selected.offset_ms)) & (say " ms")))))
          & (element "div" (prop "className" "mt-4 space-y-3 font-mono" ∷ []) (
              (element "div" [] (
                (element "span" (prop "className" "text-[11px] text-[#64748B] block" ∷ [])
                  (say "Event Name:"))
                & (element "span" (prop "className" "text-sm font-bold text-[#03045E]" ∷ [])
                    (say selected.label))))
              & (element "div" [] (
                  (element "span" (prop "className" "text-[11px] text-[#64748B] block" ∷ [])
                    (say "Subsystem Component:"))
                  & (element "span" (prop "className" "text-xs font-semibold text-[#0077B6]" ∷ [])
                      (say selected.component))))
              & (element "div" [] (
                  (element "span" (prop "className" "text-[11px] text-[#64748B] block" ∷ [])
                    (say "Execution Detail:"))
                  & (element "p"
                      (prop "className"
                          "text-xs text-[#475569] leading-relaxed mt-1 p-3 rounded-lg bg-white border border-[#E2E8F0]"
                        ∷ [])
                      (say selected.detail))))))))
        & (element "div"
            (prop "className"
                "mt-4 pt-3 border-t border-[#E2E8F0] text-[10px] font-mono text-[#64748B]"
              ∷ [])
            (say "Zero CGO overhead • Synchronous WAL fsync guaranteed")))

unfoldable pub view : TraceEvent → Node TraceEvent
unfolding timeline inspector
view selected =
    element "div"
      (prop "className"
          "p-4 sm:p-6 bg-white rounded-2xl border border-[#CBD5E1] shadow-xs space-y-6"
        ∷ [])
      ((element "div"
          (prop "className" "flex items-center justify-between border-b border-[#E2E8F0] pb-4" ∷ [])
          ((element "div" [] (
              (element "div" (prop "className" "flex items-center gap-2" ∷ []) (
                (element "Clock" (prop "className" "w-5 h-5 text-[#0077B6]" ∷ []) nothing)
                & (element "h3" (prop "className" "font-bold text-base text-[#03045E]" ∷ [])
                    (say "End-to-End Request Trace (35ms Total)"))))
              & (element "p" (prop "className" "text-xs text-[#64748B] mt-0.5" ∷ [])
                  (say "Click any execution phase to inspect sub-millisecond execution details."))))
            & (element "div"
                (prop "className"
                    "text-xs font-mono font-bold px-3 py-1 rounded-lg bg-[#E8F8F0] text-[#22A06B] border border-[#A8E6CF]"
                  ∷ [])
                (say "Latency: 35 ms"))))
        & (element "div" (prop "className" "grid grid-cols-1 lg:grid-cols-12 gap-6" ∷ [])
            ((timeline selected) & (inspector selected))))
