-- ===== src/Pages/Landing/Sections.antt =====
-- documentation/components/landing/LandingPage.tsx: the sections that do not depend on the state.
use cloud_weave.Prelude.{[], ◌∷◌}
use cloud_weave.Html.{Node, prop, nothing, say, element, ◌&◌, each}
use cloud_weave.Pages.Landing.{Event}
use cloud_weave.Pages.Landing.Features.{features, pipeline_keyframes}

unfoldable pub hero : Node Event
hero =
    element "section"
      (prop "className"
          "relative w-full pt-12 pb-16 lg:pt-16 lg:pb-24 border-b border-[#26262B] bg-[#000000] overflow-hidden"
        ∷ [])
      (element "div"
        (prop "className"
            "max-w-[1380px] mx-auto px-6 w-full flex flex-col lg:flex-row items-center gap-12 lg:gap-14"
          ∷ [])
        ((element "div"
            (prop "className" "w-full lg:w-[45%] flex flex-col items-start text-left space-y-6"
              ∷ [])
            ((element "div"
                (prop "className"
                    "inline-flex items-center gap-2 px-3 py-1 text-xs font-mono border border-[#26262B] rounded-full bg-[#19191C] text-[#A6A9AE]"
                  ∷ [])
                ((element "span" (prop "className" "w-2 h-2 rounded-full bg-[#7A1F2B]" ∷ [])
                    nothing)
                  & (element "span" [] (say "Go Distributed Storage Engine"))))
              & (element "h1"
                  (prop "className"
                      "text-4xl sm:text-5xl lg:text-6xl font-serif font-bold tracking-tight text-[#EDE8DF] leading-[1.12]"
                    ∷ [])
                  ((say "Deterministic storage. ")
                    & (element "br" [] nothing)
                    & (element "span" (prop "className" "text-[#EDE8DF] italic" ∷ [])
                        (say "Mechanically sound."))))
              & (element "p"
                  (prop "className" "text-sm sm:text-base font-mono text-[#8B8B8F] leading-relaxed"
                    ∷ [])
                  (say
                    "A high-performance S3-compatible distributed object store in Go. Built on FastCDC chunking, SHA-256 CAS deduplication, 150-vnode consistent hashing, and self-healing quorum repair."))
              & (element "div" (prop "className" "flex flex-wrap items-center gap-3 pt-2" ∷ []) (
                  (element "Link"
                    (prop "href" "/playground"
                      ∷ prop "className"
                          "inline-flex items-center justify-center h-11 px-6 text-xs font-mono font-semibold bg-[#7A1F2B] text-[#EDE8DF] hover:bg-[#912735] transition-all rounded-md shadow-sm gap-2 cursor-pointer active:scale-98"
                      ∷ [])
                    ((element "span" [] (say "Launch Playground"))
                      & (element "ArrowRight" (prop "className" "w-3.5 h-3.5 stroke-[2.5]" ∷ [])
                          nothing)))
                  & (element "Link"
                      (prop "href" "/how-it-works"
                        ∷ prop "className"
                            "inline-flex items-center justify-center h-11 px-5 text-xs font-mono text-[#EDE8DF] bg-[#19191C] border border-[#26262B] hover:border-[#7A1F2B] transition-all rounded-md cursor-pointer"
                        ∷ [])
                      (element "span" [] (say "Explore How It Works")))))))
          & (element "div" (prop "className" "w-full lg:w-[55%]" ∷ [])
              (element "VaultRing3D" [] nothing))))

unfoldable pub proof : Node Event
proof = element "section" (prop "className" "w-full border-b border-[#26262B] bg-[#000000]" ∷ []) (
    element "div" (prop "className" "max-w-[1380px] mx-auto px-6 py-8" ∷ []) (
      element "div"
        (prop "className"
            "grid grid-cols-1 md:grid-cols-3 divide-y md:divide-y-0 md:divide-x divide-[#26262B] font-mono"
          ∷ [])
        ((element "div"
            (prop "className" "py-4 md:py-0 md:px-8 first:pl-0 flex flex-col space-y-1" ∷ [])
            ((element "span" (prop "className" "text-2xl sm:text-3xl font-bold text-[#EDE8DF]" ∷ [])
                (say "151.6 MB/s"))
              & (element "span" (prop "className" "text-xs text-[#EDE8DF] font-semibold" ∷ [])
                  (say "Median Parallel Upload Throughput"))
              & (element "span" (prop "className" "text-[11px] text-[#8B8B8F]" ∷ [])
                  (say "Bounded 8-worker streaming with zero-alloc sync.Pool buffers"))))
          & (element "div" (prop "className" "py-4 md:py-0 md:px-8 flex flex-col space-y-1" ∷ []) (
              (element "span"
                (prop "className" "text-2xl sm:text-3xl font-bold text-[#EDE8DF]" ∷ [])
                (say "87.3%"))
              & (element "span" (prop "className" "text-xs text-[#EDE8DF] font-semibold" ∷ [])
                  (say "Memory Headroom under Load"))
              & (element "span" (prop "className" "text-[11px] text-[#8B8B8F]" ∷ [])
                  (say "32.5 MB heap usage under 5 concurrent 50 MB streams"))))
          & (element "div"
              (prop "className" "py-4 md:py-0 md:px-8 last:pr-0 flex flex-col space-y-1" ∷ [])
              ((element "span"
                  (prop "className" "text-2xl sm:text-3xl font-bold text-[#EDE8DF]" ∷ [])
                  (say "1.5x"))
                & (element "span" (prop "className" "text-xs text-[#EDE8DF] font-semibold" ∷ [])
                    (say "Reed-Solomon (4,2) Parity Overhead"))
                & (element "span" (prop "className" "text-[11px] text-[#8B8B8F]" ∷ [])
                    (say "50% lower raw storage cost vs 3.0x raw replication")))))))

unfoldable pub preview : Node Event
unfolding pipeline_keyframes
preview =
    element "section" (prop "className" "w-full py-20 border-b border-[#26262B] bg-[#000000]" ∷ [])
      (element "div" (prop "className" "max-w-[1380px] mx-auto px-6 space-y-10" ∷ []) (
        (element "div"
          (prop "className" "flex flex-col sm:flex-row sm:items-end justify-between gap-4" ∷ [])
          ((element "div" (prop "className" "space-y-2" ∷ []) (
              (element "div"
                (prop "className" "text-xs font-mono text-[#A6A9AE] font-semibold" ∷ [])
                (say "SYSTEM PIPELINE"))
              & (element "h2" (prop "className" "text-3xl font-serif font-bold text-[#EDE8DF]" ∷ [])
                  (say "How an Object is Sealed"))))
            & (element "Link"
                (prop "href" "/how-it-works"
                  ∷ prop "className"
                      "inline-flex items-center gap-1.5 text-xs font-mono text-[#EDE8DF] hover:underline"
                  ∷ [])
                ((element "span" [] (say "View full 6-stage interactive walkthrough"))
                  & (element "ArrowRight" (prop "className" "w-3.5 h-3.5" ∷ []) nothing)))))
        & (element "div"
            (prop "className" "grid grid-cols-1 sm:grid-cols-2 lg:grid-cols-4 gap-4 font-mono" ∷ [])
            (each pipeline_keyframes (λ kf.
              element "div"
                (prop "key" kf.step
                  ∷ prop "className"
                      "p-5 rounded-lg border border-[#26262B] bg-[#19191C] space-y-2 flex flex-col justify-between"
                  ∷ [])
                (element "div" (prop "className" "space-y-2" ∷ []) (
                  (element "div" (prop "className" "text-xs text-[#A6A9AE] font-bold" ∷ [])
                    ((say "STAGE ") & (say kf.step)))
                  & (element "div"
                      (prop "className" "text-sm font-serif font-bold text-[#EDE8DF]" ∷ [])
                      (say kf.title))
                  & (element "p"
                      (prop "className" "text-xs font-sans text-[#8B8B8F] leading-relaxed" ∷ [])
                      (say kf.desc)))))))))

unfoldable pub features_grid : Node Event
unfolding features
features_grid =
    element "section" (prop "className" "w-full py-20 border-b border-[#26262B] bg-[#000000]" ∷ [])
      (element "div" (prop "className" "max-w-[1380px] mx-auto px-6 space-y-10" ∷ []) (
        (element "div" (prop "className" "space-y-2" ∷ []) (
          (element "div" (prop "className" "text-xs font-mono text-[#A6A9AE] font-semibold" ∷ [])
            (say "ENGINE SPECIFICATION"))
          & (element "h2" (prop "className" "text-3xl font-serif font-bold text-[#EDE8DF]" ∷ [])
              (say "Distributed Core Architecture"))))
        & (element "div"
            (prop "className" "grid grid-cols-1 sm:grid-cols-2 lg:grid-cols-4 gap-4" ∷ [])
            (each features (λ feat.
              element "div"
                (prop "key" feat.title
                  ∷ prop "className"
                      "p-5 rounded-lg border border-[#26262B] bg-[#19191C] space-y-3 hover:border-[#34343A] transition-colors"
                  ∷ [])
                ((element "div"
                    (prop "className"
                        "w-8 h-8 rounded bg-[#000000] border border-[#26262B] flex items-center justify-center text-[#A6A9AE]"
                      ∷ [])
                    (element feat.icon (prop "className" "w-4 h-4" ∷ []) nothing))
                  & (element "div" (prop "className" "space-y-1" ∷ []) (
                      (element "h3"
                        (prop "className" "font-serif font-bold text-sm text-[#EDE8DF]" ∷ [])
                        (say feat.title))
                      & (element "p"
                          (prop "className" "text-xs font-mono text-[#8B8B8F] leading-relaxed" ∷ [])
                          (say feat.desc))))))))))
