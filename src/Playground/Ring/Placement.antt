-- ===== src/Playground/Ring/Placement.antt =====
-- ConsistentHashRing.tsx: where the chunks are placed, compared with the walk around the ring.
use cloud_weave.Prelude.{
  ℕ, ◌+◌, ◌-◌, ◌%◌, String, List, [], ◌∷◌, map, take, leb, same, if◌then◌else◌, ◌≡◌, refl, ap, ◌∙◌,
  Bool-cases, inl, inr, sym,
}
use cloud_weave.Playground.Ring.{
  NodePos, initial_nodes, Ring, initial, active_chunk, angle_of, chunk_angle, Event, toggle_node,
  select_chunk, toggle, handle,
}

-- Every state that clicks on nodes and chunks reach.
pub data Reachable : Ring → Type 0 where
  open_page : (selected_chunk_id : String) → Reachable (initial selected_chunk_id)
  event : {r : Ring} (e : Event) → Reachable r → Reachable (handle e r)

-- The names and angles of nodes.
abbrev pub positions : List NodePos → List (String × ℕ)
positions nodes = map (λ n. (n.name, n.angle_deg)) nodes

-- How far a walk clockwise from an angle goes to a node.
abbrev pub distance : ℕ → String × ℕ → ℕ
distance angle (name, at) = (at + 360 - angle) % 360

abbrev pub insert_by : ℕ → String × ℕ → List (String × ℕ) → List (String × ℕ)
insert_by angle n [] = n ∷ []
insert_by angle n (m ∷ ns) =
    let rest = insert_by angle n ns in
    if leb (distance angle n) (distance angle m) then n ∷ m ∷ ns else m ∷ rest

-- The nodes in the order in which the walk meets them.
abbrev pub clockwise : ℕ → List (String × ℕ) → List (String × ℕ)
clockwise angle [] = []
clockwise angle (n ∷ ns) = insert_by angle n (clockwise angle ns)

abbrev pub successors : ℕ → ℕ → List NodePos → List String
successors count angle nodes = take count (map (λ n. n.0) (clockwise angle (positions nodes)))

toggle-position :
    (id : String) (n : NodePos)
    → ((toggle id n).name ≡ n.name) × ((toggle id n).angle_deg ≡ n.angle_deg)
unfolding toggle
toggle-position id n = elim (Bool-cases (same n.id id)) [
  | inl e ↦ rw e (refl, refl)
  | inr e ↦ rw e (refl, refl)
]

positions-toggle :
    (id : String) (nodes : List NodePos) → positions (map (toggle id) nodes) ≡ positions nodes
positions-toggle id [] = refl
positions-toggle id (n ∷ nodes) =
    let (name, angle) = toggle-position id n in rw (name, angle, positions-toggle id nodes) refl

positions-Reachable : {r : Ring} → Reachable r → positions r.nodes ≡ positions initial_nodes
unfolding handle
positions-Reachable (open_page id) = refl
positions-Reachable (event {r} (toggle_node id) h) =
    positions-toggle id r.nodes ∙ positions-Reachable h
positions-Reachable (event (select_chunk id) h) = positions-Reachable h

initial_placement :
    (r : Ring)
    → successors 3 (chunk_angle r) initial_nodes
      ≡ (active_chunk r).primary_node ∷ (active_chunk r).replicas
unfolding chunk_angle active_chunk angle_of
initial_placement r = elim (Bool-cases (same "chunk-a" r.current_chunk_id)) [
  | inl e ↦ rw e refl
  | inr a ↦ elim (Bool-cases (same "chunk-b" r.current_chunk_id)) [
    | inl e ↦ rw (a, e) refl
    | inr b ↦ elim (Bool-cases (same "chunk-c" r.current_chunk_id)) [
      | inl e ↦ rw (a, b, e) refl
      | inr c ↦ elim (Bool-cases (same "chunk-d" r.current_chunk_id)) [
        | inl e ↦ rw (a, b, c, e) refl
        | inr d ↦ rw (a, b, c, d) refl
      ]
    ]
  ]
]

-- In every reachable state, whichever nodes were taken down, the primary node and the replicas that are
-- shown for the chosen chunk are the first three of the nodes that a walk clockwise from the chunk's
-- angle meets, in this order.
pub placement-successors :
    {r : Ring}
    → Reachable r
    → (active_chunk r).primary_node ∷ (active_chunk r).replicas
      ≡ successors 3 (chunk_angle r) r.nodes
placement-successors {r} h = sym (
    ap (λ ps. take 3 (map (λ n. n.0) (clockwise (chunk_angle r) ps))) (positions-Reachable h)
    ∙ initial_placement r)
