-- ===== src/Canvas/Failure/Holdings.antt =====
-- FailureCanvas.tsx: which chunks the nodes hold, and what the timers make of it.
use cloud_weave.Prelude.{
  ℕ, String, Bool, ◌||◌, List, [], ◌∷◌, map, ◌≡◌, refl, ap, ◌∙◌, subst, sym, ◌⊎◌, inl, inr, same,
  cat, any, count_of, if◌then◌else◌, ◌==◌, arith,
}
use cloud_weave.Canvas.Failure.{
  MeshNode, Mesh, Task, fail, repair, recover, lose_node, fail_node, repair_node, recover_node, run,
}

-- Whether a name on a node stands for a copy of the chunk.
abbrev is_copy : String → String → Bool
is_copy c name = same name c || same name (cat c " (Repaired)")

-- How many nodes hold a copy of the chunk.
abbrev pub copies : String → List MeshNode → ℕ
copies c ns = count_of (λ n. any (is_copy c) n.chunks) ns

abbrev Holding : Type 0
Holding = ℕ × List String

abbrev pub holdings : List MeshNode → List Holding
holdings ns = map (λ n. (n.id, n.chunks)) ns

abbrev copies_in : String → List Holding → ℕ
copies_in c hs = count_of (λ h. any (is_copy c) h.1) hs

pub copies-holdings : (c : String) (ns : List MeshNode) → copies c ns ≡ copies_in c (holdings ns)
copies-holdings c [] = refl
copies-holdings c (n ∷ ns) = ground (arith, copies-holdings c ns)

-- What the nodes hold before a failure, after it, and after the repair.
abbrev held : List String → List String → List Holding
held third fourth =
    (1, "A" ∷ "B" ∷ "C" ∷ [])
    ∷ (2, "A" ∷ "B" ∷ [])
    ∷ (3, third)
    ∷ (4, fourth)
    ∷ (5, "A" ∷ "D" ∷ [])
    ∷ []

abbrev before : List Holding
before = held ("C" ∷ "D" ∷ []) ("B" ∷ "D" ∷ [])

abbrev broken : List Holding
broken = held [] ("B" ∷ "D" ∷ [])

abbrev pub repaired : List Holding
repaired = held [] ("B" ∷ "D" ∷ "C (Repaired)" ∷ [])

abbrev pub HoldsOne : List Holding → Type 0
HoldsOne hs = (hs ≡ before) ⊎ ((hs ≡ broken) ⊎ (hs ≡ repaired))

abbrev pub IsHeld : List MeshNode → Type 0
IsHeld ns = HoldsOne (holdings ns)

holdings-map :
    (f : MeshNode → MeshNode) (g : Holding → Holding)
    → ((n : MeshNode) → ((f n).id, (f n).chunks) ≡ g (n.id, n.chunks))
    → (ns : List MeshNode) → holdings (map f ns) ≡ map g (holdings ns)
holdings-map f g h [] = refl
holdings-map f g h (n ∷ ns) = rw (h n, holdings-map f g h ns)

abbrev emptied : Holding → Holding
emptied h = if h.0 == 3 then (h.0, []) else h

abbrev restored : Holding → Holding
restored h =
    if h.0 == 3 then (h.0, []) else if h.0 == 4 then (h.0, "B" ∷ "D" ∷ "C (Repaired)" ∷ []) else h

same_holding : (hs : List Holding) → map {A = Holding} (λ h. h) hs ≡ hs
same_holding [] = refl
same_holding (h ∷ hs) = ap (λ t. h ∷ t) (same_holding hs)

pub holdings-lose : (ns : List MeshNode) → holdings (map lose_node ns) ≡ holdings ns
unfolding lose_node
holdings-lose ns =
    holdings-map lose_node (λ h. h) (λ n. ground arith) ns ∙ same_holding (holdings ns)

holdings-repair : (ns : List MeshNode) → holdings (map repair_node ns) ≡ holdings ns
unfolding repair_node
holdings-repair ns =
    holdings-map repair_node (λ h. h) (λ n. ground arith) ns ∙ same_holding (holdings ns)

holdings-fail : (ns : List MeshNode) → holdings (map fail_node ns) ≡ map emptied (holdings ns)
unfolding fail_node
holdings-fail ns = holdings-map fail_node emptied (λ n. ground arith) ns

holdings-recover :
    (ns : List MeshNode) → holdings (map recover_node ns) ≡ map restored (holdings ns)
unfolding recover_node
holdings-recover ns = holdings-map recover_node restored (λ n. ground arith) ns

IsHeld-fail : (ns : List MeshNode) → IsHeld ns → IsHeld (map fail_node ns)
IsHeld-fail ns (inl e) = inr (inl (holdings-fail ns ∙ ap (map emptied) e))
IsHeld-fail ns (inr (inl e)) = inr (inl (holdings-fail ns ∙ ap (map emptied) e))
IsHeld-fail ns (inr (inr e)) = inr (inr (holdings-fail ns ∙ ap (map emptied) e))

pub IsHeld-recover : (ns : List MeshNode) → IsHeld ns → holdings (map recover_node ns) ≡ repaired
IsHeld-recover ns (inl e) = holdings-recover ns ∙ ap (map restored) e
IsHeld-recover ns (inr (inl e)) = holdings-recover ns ∙ ap (map restored) e
IsHeld-recover ns (inr (inr e)) = holdings-recover ns ∙ ap (map restored) e

pub IsHeld-run : (t : Task) (s : Mesh) → IsHeld s.nodes_state → IsHeld (run t s).nodes_state
unfolding run
IsHeld-run fail s h = IsHeld-fail s.nodes_state h
IsHeld-run repair s h = subst HoldsOne (sym (holdings-repair s.nodes_state)) h
IsHeld-run recover s h = inr (inr (IsHeld-recover s.nodes_state h))
