-- ===== src/Pages/Landing/View.antt =====
-- documentation/components/landing/LandingPage.tsx: what it shows. The lock of the closing section is an element
-- whose only call of setIsLocked turns the lock over.
use cloud_weave.Prelude.{[], ◌∷◌, if◌then◌else◌}
use cloud_weave.Html.{Node, prop, flag, fields, on, nothing, say, element, ◌&◌}
use cloud_weave.Pages.Landing.{Landing, Event, copy_install, lock, toggle_lock}
use cloud_weave.Pages.Landing.Sections.{hero, proof, preview, features_grid}

unfoldable pub closing : Landing → Node Event
closing s =
    element "section"
      (prop "className"
          "w-full min-h-[90vh] py-24 bg-[#000000] border-b border-[#26262B] relative flex flex-col items-center justify-center overflow-hidden"
        ∷ [])
      ((element "div"
          (prop "className" "relative z-10 max-w-4xl mx-auto px-6 text-center space-y-4" ∷ [])
          ((element "div"
              (prop "className"
                  "inline-flex items-center gap-2 px-3 py-1 text-xs font-mono border border-[#26262B] rounded-full bg-[#19191C] text-[#A6A9AE]"
                ∷ [])
              ((element "span" (prop "className" "w-2 h-2 rounded-full bg-[#7A1F2B]" ∷ []) nothing)
                & (element "span" [] (say "Distributed Object Storage"))))
            & (element "h2"
                (prop "className"
                    "text-5xl sm:text-6xl lg:text-7xl xl:text-8xl font-serif font-bold tracking-tight text-[#EDE8DF] leading-[1.05]"
                  ∷ [])
                ((say "Every write. ")
                  & (element "br" (prop "className" "hidden sm:inline" ∷ []) nothing)
                  & (element "span" (prop "className" "text-[#EDE8DF] italic" ∷ [])
                      (say "Sealed shut."))))
            & (element "p"
                (prop "className" "text-sm sm:text-base font-mono text-[#8B8B8F] max-w-xl mx-auto"
                  ∷ [])
                (say
                  "Deterministic distributed object storage in Go. FastCDC chunking, SHA-256 CAS, and quorum replication."))
            & (element "p" (prop "className" "text-xs font-mono text-[#A6A9AE]" ∷ []) (
                say (
                  if s.is_cta_vault_locked
                  then "✓ Cluster lock engaged — ready for deployment."
                  else "Click or drag the hash ring dial below to lock the cluster state.")))))
        & (element "div"
            (prop "className"
                "relative z-10 w-full max-w-3xl h-[380px] sm:h-[440px] lg:h-[480px] my-4"
              ∷ [])
            (element "FullBleedVaultLock3D"
              (flag "isLocked" s.is_cta_vault_locked ∷ on "setIsLocked" toggle_lock ∷ []) nothing))
        & (element "div"
            (prop "className"
                "relative z-10 w-full max-w-2xl px-6 flex flex-col items-center space-y-6"
              ∷ [])
            (element "AnimatePresence" [] (
              if s.is_cta_vault_locked
              then element "motion.div"
                  (fields "initial" (("opacity", "0") ∷ ("y", "20") ∷ [])
                    ∷ fields "animate" (("opacity", "1") ∷ ("y", "0") ∷ [])
                    ∷ fields "exit" (("opacity", "0") ∷ ("y", "20") ∷ [])
                    ∷ fields "transition" (("duration", "0.4") ∷ ("ease", "easeOut") ∷ [])
                    ∷ prop "className" "w-full flex flex-col items-center space-y-5"
                    ∷ [])
                  ((element "div"
                      (prop "className"
                          "flex items-center justify-between gap-3 px-5 py-3.5 rounded-xl bg-[#19191C] border border-[#7A1F2B] font-mono text-xs text-[#EDE8DF] w-full shadow-2xl"
                        ∷ [])
                      ((element "span" (prop "className" "text-[#8B8B8F] select-none" ∷ [])
                          (say "$"))
                        & (element "span"
                            (prop "className" "text-[#EDE8DF] font-bold select-all truncate" ∷ [])
                            (say "go install github.com/jhanvi857/cloudweave/cmd/cweave@latest"))
                        & (element "button"
                            (on "onClick" copy_install
                              ∷ prop "className"
                                  "flex items-center gap-1.5 px-3 py-1.5 rounded bg-[#000000] hover:bg-[#7A1F2B] text-[#EDE8DF] text-xs transition-colors border border-[#26262B] cursor-pointer shrink-0 ml-2 shadow-xs"
                              ∷ prop "title" "Copy install command"
                              ∷ [])
                            ((if s.copied
                                then element "Check"
                                    (prop "className" "w-3.5 h-3.5 text-[#4ADE80]" ∷ []) nothing
                                else element "Copy" (prop "className" "w-3.5 h-3.5" ∷ []) nothing)
                              & (element "span" (prop "className" "text-xs font-semibold" ∷ [])
                                  (say (if s.copied then "Copied" else "Copy")))))))
                    & (element "div"
                        (prop "className" "flex flex-wrap items-center justify-center gap-4 pt-1"
                          ∷ [])
                        ((element "Link"
                            (prop "href" "/docs"
                              ∷ prop "className"
                                  "inline-flex items-center justify-center h-12 px-8 text-xs font-mono font-semibold bg-[#7A1F2B] text-[#EDE8DF] hover:bg-[#912735] transition-all rounded-md shadow-md gap-2 cursor-pointer active:scale-98"
                              ∷ [])
                            ((element "span" [] (say "Quickstart Guide"))
                              & (element "ArrowRight" (prop "className" "w-4 h-4 stroke-[2.5]" ∷ [])
                                  nothing)))
                          & (element "a"
                              (prop "href" "https://github.com/jhanvi857/CloudWeave"
                                ∷ prop "target" "_blank"
                                ∷ prop "rel" "noreferrer"
                                ∷ prop "className"
                                    "inline-flex items-center justify-center h-12 px-7 text-xs font-mono text-[#EDE8DF] bg-[#19191C] border border-[#26262B] hover:border-[#EDE8DF] transition-colors rounded-md gap-2 shadow-xs"
                                ∷ [])
                              ((element "GithubIcon"
                                  (prop "className" "w-4 h-4 text-[#8B8B8F]" ∷ []) nothing)
                                & (element "span" [] (say "GitHub Repository")))))))
              else element "motion.div"
                  (fields "initial" (("opacity", "0") ∷ [])
                    ∷ fields "animate" (("opacity", "1") ∷ [])
                    ∷ fields "exit" (("opacity", "0") ∷ [])
                    ∷ prop "className" "flex flex-col items-center"
                    ∷ [])
                  (element "button"
                    (on "onClick" lock
                      ∷ prop "className"
                          "px-6 py-3 rounded-lg bg-[#19191C] border border-[#26262B] hover:border-[#7A1F2B] text-xs font-mono text-[#EDE8DF] transition-all cursor-pointer shadow-md hover:scale-102"
                      ∷ [])
                    (say "Click to Lock Cluster & Reveal Quickstart"))))))

unfoldable pub view : Landing → Node Event
unfolding hero proof preview features_grid closing
view s =
    element "div"
      (prop "className"
          "w-full flex flex-col items-center bg-[#000000] text-[#EDE8DF] selection:bg-[#7A1F2B]/40 selection:text-[#EDE8DF] font-sans"
        ∷ [])
      ((hero) & (proof) & (preview) & (features_grid) & (closing s))
