-- ===== src/Playground/Stepper.antt =====
-- documentation/components/playground/SimulationStepper.tsx: the row of the six steps of an upload,
-- for a type of events that are the steps clicked on.
mod Tests
use cloud_weave.Prelude.{
  ℕ, suc, ◌+◌, ◌-◌, ◌≤◌, String, Bool, true, false, not, Option, none, some, List, [], ◌∷◌, map,
  length, ltb, ◌==◌, if◌then◌else◌, cat, ◌≡◌, refl, keep, same, ◌||◌, ◌++◌,
}
use cloud_weave.Html.{Node, prop, on, nothing, say, element, ◌&◌, when, each_from, clicks, tags}

pub data SimulationStep : Type 0 where
  upload chunking distribution replication quorum complete : SimulationStep

pub record Step : Type 0 where
  pub id : SimulationStep
  pub label : String
  pub number : String
  pub desc : String

abbrev pub steps : List Step
steps =
    record { id = upload; label = "Upload"; number = "01"; desc = "S3 PUT /video.mp4" }
    ∷ record { id = chunking; label = "Chunking"; number = "02"; desc = "FastCDC + SHA-256" }
    ∷ record { id = distribution; label = "Distribution"; number = "03"; desc = "150 VNode Ring" }
    ∷ record { id = replication; label = "Replication"; number = "04"; desc = "N=3 Multi-Node" }
    ∷ record { id = quorum; label = "Quorum"; number = "05"; desc = "W=2 ACKs" }
    ∷ record { id = complete; label = "Complete"; number = "06"; desc = "WAL Commit & 201" }
    ∷ []

abbrev pub step_name : SimulationStep → String
step_name upload = "upload"
step_name chunking = "chunking"
step_name distribution = "distribution"
step_name replication = "replication"
step_name quorum = "quorum"
step_name complete = "complete"

abbrev pub order : SimulationStep → ℕ
order upload = 0
order chunking = 1
order distribution = 2
order replication = 3
order quorum = 4
order complete = 5

-- `a === b`
abbrev pub is_step : SimulationStep → SimulationStep → Bool
is_step a b = order a == order b

-- `xs.findIndex(p)`, with -1 as `none`.
abbrev pub find_index {ℓ} : {A : Type ℓ} → (A → Bool) → List A → Option ℕ
find_index p [] = none
find_index p (x ∷ xs) =
    let rest = find_index p xs in
    if p x then some 0 else elim rest [ none ↦ none | some i ↦ some (suc i) ]

unfoldable pub current_index : SimulationStep → Option ℕ
current_index current_step = find_index (λ s. is_step s.id current_step) steps

-- `i < j`, false for a `j` of -1.
abbrev pub below : ℕ → Option ℕ → Bool
below i none = false
below i (some j) = ltb i j

unfoldable pub step_button : SimulationStep → Step → ℕ → Node SimulationStep
unfolding current_index
step_button current_step step index =
    let is_current = is_step step.id current_step in
    let is_completed = below index (current_index current_step) in
    element "button"
      (prop "key" (step_name step.id)
        ∷ on "onClick" step.id
        ∷ prop "className" (
            cat
              "flex items-center gap-2.5 px-3 py-2 rounded-lg border text-left shrink-0 transition-all "
              ((if is_current
                then "border-[#00B4D8] bg-[#CAF0F8] text-[#03045E] shadow-2xs"
                else if is_completed
                then "border-[#A8E6CF] bg-[#E8F8F0] text-[#22A06B]"
                else "border-[#E2E8F0] bg-white text-[#64748B] hover:bg-[#F8FAFC]")))
        ∷ [])
      ((element "div"
          (prop "className" (
              cat
                "flex h-6 w-6 shrink-0 items-center justify-center rounded-full text-[11px] font-mono font-bold "
                ((if is_current
                  then "bg-[#00B4D8] text-white animate-pulse"
                  else if is_completed
                  then "bg-[#22A06B] text-white"
                  else "bg-[#F1F5F9] text-[#94A3B8]")))
            ∷ [])
          (if is_completed
            then element "CheckCircle" (prop "className" "w-3.5 h-3.5" ∷ []) nothing
            else say step.number))
        & (element "div" [] (
            (element "div" (prop "className" "flex items-center gap-1.5" ∷ []) (
              element "span"
                (prop "className" (
                    cat "text-xs font-bold font-mono tracking-tight " (
                      (if is_current
                        then "text-[#0077B6]"
                        else if is_completed
                        then "text-[#22A06B]"
                        else "text-[#475569]")))
                  ∷ [])
                (say step.label)))
            & (element "span"
                (prop "className" "text-[10px] font-mono text-[#64748B] hidden sm:block" ∷ [])
                (say step.desc))))
        & (when (ltb index (length steps - 1)) (
            element "ArrowRight"
              (prop "className" "w-3 h-3 text-[#CBD5E1] ml-1 hidden lg:block" ∷ []) nothing)))

unfoldable pub view : SimulationStep → Node SimulationStep
unfolding step_button
view current_step =
    element "div"
      (prop "className" "w-full border-b border-[#E2E8F0] bg-white py-3 px-4 sm:px-6" ∷ [])
      (element "div"
        (prop "className" "flex items-center justify-between overflow-x-auto gap-2 py-1" ∷ [])
        (each_from 0 steps (step_button current_step)))

abbrev pub is_mark : String → Bool
is_mark tag = same tag "button" || (same tag "CheckCircle" || same tag "ArrowRight")

-- The buttons of the steps from a place on, each with its tick, if it lies before the current one, and
-- its arrow, if it is not the last.
abbrev pub row_from : ℕ → ℕ → List Step → List String
row_from current i [] = []
row_from current i (s ∷ []) = "button" ∷ (if ltb i current then "CheckCircle" ∷ [] else [])
row_from current i (s ∷ t ∷ ss) =
    "button"
    ∷ ((if ltb i current then "CheckCircle" ∷ [] else [])
        ++ ("ArrowRight" ∷ row_from current (suc i) (t ∷ ss)))

-- Whichever step is current: the steps are buttons in their order, each step before the current one
-- and no other holds a tick, each but the last ends with an arrow, and a click on any step selects
-- that step.
pub completed-view :
    (s : SimulationStep)
    → (keep is_mark (tags (view s)) ≡ row_from (order s) 0 steps)
      × (clicks (view s) ≡ map (λ t. t.id) steps)
unfolding view
completed-view upload = (refl, refl)
completed-view chunking = (refl, refl)
completed-view distribution = (refl, refl)
completed-view replication = (refl, refl)
completed-view quorum = (refl, refl)
completed-view complete = (refl, refl)
