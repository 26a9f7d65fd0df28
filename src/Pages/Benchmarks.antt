-- ===== src/Pages/Benchmarks.antt =====
-- documentation/components/benchmarks/BenchmarksView.tsx: what it shows, which raises no event.
pub mod Figures
use cloud_weave.Prelude.{
  ℕ, zero, suc, ◌+◌, ◌-◌, ◌*◌, String, Bool, true, false, not, ◌&&◌, ◌||◌, Option, none, some, List,
  [], ◌∷◌, map, length, find?, get_or, get_elem?, leb, ltb, ◌==◌, if◌then◌else◌, show, cat, concat,
  join, until, beyond, same,
}
use cloud_weave.Html.{
  Node, prop, num, flag, fields, on, nothing, say, element, ◌&◌, each, each_from, when,
}
use cloud_weave.Pages.Benchmarks.Figures.{throughput_data, comparison_data, memory_stress_data}

unfoldable pub cards : Node ⊥
cards = element "div" (prop "className" "grid grid-cols-1 sm:grid-cols-3 gap-4 font-mono" ∷ []) (
    (element "div"
      (prop "className" "p-4 rounded-xl border border-[#26262B] bg-[#19191C] space-y-1" ∷ [])
      ((element "div" (prop "className" "flex items-center justify-between" ∷ []) (
          (element "span" (prop "className" "text-[11px] text-[#A6A9AE] uppercase font-bold" ∷ [])
            (say "Write Throughput"))
          & (element "Zap" (prop "className" "w-4 h-4 text-[#7A1F2B]" ∷ []) nothing)))
        & (element "div" (prop "className" "text-2xl font-bold text-[#EDE8DF]" ∷ [])
            (say "151.61 MB/s"))
        & (element "p" (prop "className" "text-[11px] text-[#8B8B8F]" ∷ [])
            (say "8 workers · N=3, W=2 parallel fan-out"))))
    & (element "div"
        (prop "className" "p-4 rounded-xl border border-[#26262B] bg-[#19191C] space-y-1" ∷ [])
        ((element "div" (prop "className" "flex items-center justify-between" ∷ []) (
            (element "span" (prop "className" "text-[11px] text-[#A6A9AE] uppercase font-bold" ∷ [])
              (say "CAS Dedup Speedup"))
            & (element "HardDrive" (prop "className" "w-4 h-4 text-[#7A1F2B]" ∷ []) nothing)))
          & (element "div" (prop "className" "text-2xl font-bold text-[#EDE8DF]" ∷ [])
              (say "485.20 MB/s"))
          & (element "p" (prop "className" "text-[11px] text-[#8B8B8F]" ∷ [])
              (say "FastCDC SHA-256 CAS hit (0 disk I/O)"))))
    & (element "div"
        (prop "className" "p-4 rounded-xl border border-[#26262B] bg-[#19191C] space-y-1" ∷ [])
        ((element "div" (prop "className" "flex items-center justify-between" ∷ []) (
            (element "span" (prop "className" "text-[11px] text-[#A6A9AE] uppercase font-bold" ∷ [])
              (say "Memory Headroom"))
            & (element "Cpu" (prop "className" "w-4 h-4 text-[#7A1F2B]" ∷ []) nothing)))
          & (element "div" (prop "className" "text-2xl font-bold text-[#EDE8DF]" ∷ [])
              (say "87.3% Free"))
          & (element "p" (prop "className" "text-[11px] text-[#8B8B8F]" ∷ [])
              (say "32.5 MB heap under 5 streams (256MB limit)")))))

unfoldable pub throughput_table : Node ⊥
unfolding throughput_data
throughput_table = element "div" (prop "className" "space-y-3" ∷ []) (
    (element "div" (prop "className" "space-y-1" ∷ []) (
      (element "div"
        (prop "className" "text-xs font-mono text-[#A6A9AE] font-semibold uppercase" ∷ [])
        (say "Table 1 · IOPS & Throughput"))
      & (element "p" (prop "className" "text-xs font-mono text-[#EDE8DF] font-semibold" ∷ []) (
          say
            "Bounded 8-worker streaming delivers consistent >150 MB/s write throughput while CAS dedup eliminates disk I/O for duplicate blocks."))))
    & (element "div"
        (prop "className" "border border-[#26262B] rounded-lg overflow-hidden bg-[#19191C]" ∷ [])
        (element "div" (prop "className" "overflow-x-auto" ∷ []) (
          element "table" (prop "className" "w-full text-left font-mono text-xs" ∷ []) (
            (element "thead"
              (prop "className" "bg-[#000000] border-b border-[#26262B] text-[#8B8B8F]" ∷ [])
              (element "tr" [] (
                (element "th" (prop "className" "py-3 px-4 font-bold" ∷ [])
                  (say "Benchmark Operation"))
                & (element "th" (prop "className" "py-3 px-4 font-bold" ∷ [])
                    (say "Median Throughput"))
                & (element "th" (prop "className" "py-3 px-4 font-bold" ∷ []) (say "Range"))
                & (element "th" (prop "className" "py-3 px-4 font-bold" ∷ []) (say "Concurrency"))
                & (element "th" (prop "className" "py-3 px-4 font-bold" ∷ []) (say "Notes")))))
            & (element "tbody" (prop "className" "divide-y divide-[#26262B] text-[#EDE8DF]" ∷ []) (
                each throughput_data (λ row.
                  element "tr"
                    (prop "key" row.test
                      ∷ prop "className" "hover:bg-[#222226] transition-colors"
                      ∷ [])
                    ((element "td" (prop "className" "py-3 px-4 font-semibold text-[#EDE8DF]" ∷ [])
                        (say row.test))
                      & (element "td" (prop "className" "py-3 px-4 text-[#EDE8DF] font-bold" ∷ [])
                          (say row.median))
                      & (element "td" (prop "className" "py-3 px-4 text-[#8B8B8F]" ∷ [])
                          (say row.range))
                      & (element "td" (prop "className" "py-3 px-4 text-[#A6A9AE]" ∷ [])
                          (say row.concurrency))
                      & (element "td"
                          (prop "className" "py-3 px-4 text-[11px] text-[#8B8B8F] font-sans" ∷ [])
                          (say row.notes)))))))))))

unfoldable pub comparison_table : Node ⊥
unfolding comparison_data
comparison_table = element "div" (prop "className" "space-y-3" ∷ []) (
    (element "div" (prop "className" "space-y-1" ∷ []) (
      (element "div"
        (prop "className" "text-xs font-mono text-[#A6A9AE] font-semibold uppercase" ∷ [])
        (say "Table 2 · Comparative Systems Evaluation"))
      & (element "p" (prop "className" "text-xs font-mono text-[#EDE8DF] font-semibold" ∷ []) (
          say
            "CloudWeave achieves superior memory efficiency and integrated FastCDC deduplication compared to standard object stores."))))
    & (element "div"
        (prop "className" "border border-[#26262B] rounded-lg overflow-hidden bg-[#19191C]" ∷ [])
        (element "div" (prop "className" "overflow-x-auto" ∷ []) (
          element "table" (prop "className" "w-full text-left font-mono text-xs" ∷ []) (
            (element "thead"
              (prop "className" "bg-[#000000] border-b border-[#26262B] text-[#8B8B8F]" ∷ [])
              (element "tr" [] (
                (element "th" (prop "className" "py-3 px-4 font-bold" ∷ []) (say "Storage Engine"))
                & (element "th" (prop "className" "py-3 px-4 font-bold" ∷ []) (say "Runtime"))
                & (element "th" (prop "className" "py-3 px-4 font-bold" ∷ [])
                    (say "Write Throughput"))
                & (element "th" (prop "className" "py-3 px-4 font-bold" ∷ []) (say "p99 Latency"))
                & (element "th" (prop "className" "py-3 px-4 font-bold" ∷ [])
                    (say "Heap (50 streams)"))
                & (element "th" (prop "className" "py-3 px-4 font-bold" ∷ []) (say "Deduplication"))
                & (element "th" (prop "className" "py-3 px-4 font-bold" ∷ [])
                    (say "Durability Model")))))
            & (element "tbody" (prop "className" "divide-y divide-[#26262B] text-[#EDE8DF]" ∷ []) (
                each comparison_data (λ row.
                  let is_cW = row.is_primary in
                  element "tr"
                    (prop "key" row.engine
                      ∷ prop "className" (
                          if is_cW
                          then "bg-[#000000] font-bold border-l-4 border-l-[#7A1F2B]"
                          else "hover:bg-[#222226]")
                      ∷ [])
                    ((element "td" (prop "className" "py-3 px-4" ∷ []) (
                        element "div" (prop "className" "flex items-center gap-2" ∷ []) (
                          (when is_cW (
                            element "span"
                              (prop "className" "w-1.5 h-1.5 rounded-full bg-[#7A1F2B]" ∷ [])
                              nothing))
                          & (element "span"
                              (prop "className"
                                  (if is_cW then "text-[#EDE8DF] font-bold" else "text-[#EDE8DF]")
                                ∷ [])
                              (say row.engine)))))
                      & (element "td" (prop "className" "py-3 px-4 text-[#8B8B8F]" ∷ [])
                          (say row.language))
                      & (element "td"
                          (prop "className" "py-3 px-4 text-[#EDE8DF] font-semibold" ∷ [])
                          (say row.throughput))
                      & (element "td" (prop "className" "py-3 px-4 text-[#EDE8DF]" ∷ [])
                          (say row.p99_latency))
                      & (element "td" (prop "className" "py-3 px-4 text-[#8B8B8F]" ∷ [])
                          (say row.memory_under_load))
                      & (element "td" (prop "className" "py-3 px-4 text-[#8B8B8F]" ∷ [])
                          (say row.dedup_support))
                      & (element "td" (prop "className" "py-3 px-4 text-[#8B8B8F]" ∷ [])
                          (say row.fault_tolerance)))))))))))

unfoldable pub memory_table : Node ⊥
unfolding memory_stress_data
memory_table = element "div" (prop "className" "space-y-3" ∷ []) (
    (element "div" (prop "className" "space-y-1" ∷ []) (
      (element "div"
        (prop "className" "text-xs font-mono text-[#A6A9AE] font-semibold uppercase" ∷ [])
        (say "Table 3 · Memory Profile under Concurrency"))
      & (element "p" (prop "className" "text-xs font-mono text-[#EDE8DF] font-semibold" ∷ []) (
          say
            "sync.Pool buffer recycling maintains a predictable ~5-6 MB heap footprint per active stream with zero runaway GC spikes."))))
    & (element "div"
        (prop "className" "border border-[#26262B] rounded-lg overflow-hidden bg-[#19191C]" ∷ [])
        (element "div" (prop "className" "overflow-x-auto" ∷ []) (
          element "table" (prop "className" "w-full text-left font-mono text-xs" ∷ []) (
            (element "thead"
              (prop "className" "bg-[#000000] border-b border-[#26262B] text-[#8B8B8F]" ∷ [])
              (element "tr" [] (
                (element "th" (prop "className" "py-3 px-4 font-bold" ∷ [])
                  (say "Concurrency Level"))
                & (element "th" (prop "className" "py-3 px-4 font-bold" ∷ [])
                    (say "Data In Flight"))
                & (element "th" (prop "className" "py-3 px-4 font-bold" ∷ [])
                    (say "Allocated Heap"))
                & (element "th" (prop "className" "py-3 px-4 font-bold" ∷ [])
                    (say "Per-Stream Allocation"))
                & (element "th" (prop "className" "py-3 px-4 font-bold" ∷ [])
                    (say "Headroom (256MB Limit)")))))
            & (element "tbody" (prop "className" "divide-y divide-[#26262B] text-[#EDE8DF]" ∷ []) (
                each memory_stress_data (λ row.
                  element "tr"
                    (prop "key" row.concurrency
                      ∷ prop "className" "hover:bg-[#222226] transition-colors"
                      ∷ [])
                    ((element "td" (prop "className" "py-3 px-4 font-semibold text-[#EDE8DF]" ∷ [])
                        (say row.concurrency))
                      & (element "td" (prop "className" "py-3 px-4 text-[#8B8B8F]" ∷ [])
                          (say row.transfer))
                      & (element "td" (prop "className" "py-3 px-4 text-[#EDE8DF] font-bold" ∷ [])
                          (say row.heap))
                      & (element "td" (prop "className" "py-3 px-4 text-[#8B8B8F]" ∷ [])
                          (say row.per_worker))
                      & (element "td"
                          (prop "className" "py-3 px-4 text-[#A6A9AE] font-semibold" ∷ [])
                          (say row.margin)))))))))))

unfoldable pub view : Node ⊥
unfolding cards throughput_table comparison_table memory_table
view =
    element "div"
      (prop "className"
          "w-full max-w-5xl mx-auto space-y-12 font-sans selection:bg-[#7A1F2B]/40 selection:text-[#EDE8DF]"
        ∷ [])
      ((element "div" (prop "className" "text-center space-y-3 max-w-2xl mx-auto" ∷ []) (
          (element "div"
            (prop "className"
                "inline-flex items-center gap-2 px-3 py-1 text-xs font-mono border border-[#26262B] rounded-full bg-[#19191C] text-[#A6A9AE]"
              ∷ [])
            ((element "span" (prop "className" "w-2 h-2 rounded-full bg-[#7A1F2B]" ∷ []) nothing)
              & (element "span" [] (say "Empirical Measurements"))))
          & (element "h1"
              (prop "className" "text-4xl font-serif font-bold tracking-tight text-[#EDE8DF]" ∷ [])
              (say "Performance & Scalability Benchmarks"))
          & (element "p" (prop "className" "text-sm font-mono text-[#8B8B8F] leading-relaxed" ∷ [])
              (say
                "Reproducible benchmark results captured across a 5-node cluster with GC isolation and 5-iteration median averages."))))
        & (cards)
        & (element "div" (prop "className" "space-y-2 font-mono text-xs" ∷ []) (
            (element "div"
              (prop "className" "flex items-center justify-between text-[#A6A9AE] text-xs" ∷ [])
              ((element "span" [] (say "REPRODUCE SUITE COMMAND"))
                & (element "span" (prop "className" "text-[11px] text-[#8B8B8F]" ∷ [])
                    (say "Run in repository root"))))
            & (element "CodeBlock"
                (prop "code" (
                    "# Execute complete suite with memory allocations profile\ngo test -bench=. -benchmem -v ./test/benchmark/...")
                  ∷ prop "language" "bash"
                  ∷ prop "filename" "benchmark_runner.sh"
                  ∷ [])
                nothing)))
        & (throughput_table)
        & (comparison_table)
        & (memory_table)
        & (element "div"
            (prop "className"
                "p-6 rounded-lg bg-[#19191C] border border-[#26262B] font-mono text-xs space-y-2"
              ∷ [])
            ((element "span"
                (prop "className" "font-bold text-[#A6A9AE] uppercase tracking-wider block" ∷ [])
                (say "Measurement Methodology Note"))
              & (element "p"
                  (prop "className" "font-sans text-xs text-[#8B8B8F] leading-relaxed" ∷ [])
                  (say
                    "Tests were executed across a 5-node cluster running Go 1.24 on Linux (Kernel 6.8, NVMe storage, 10GbE network topology). Benchmarks used standalone client processes with garbage collection pause isolation and GOMAXPROCS tuning. Each data point reflects the median of 5 independent benchmark runs across random 1MB–100MB payload distributions.")))))
