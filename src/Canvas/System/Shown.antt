-- ===== src/Canvas/System/Shown.antt =====
-- MasterSystemCanvas.tsx: what a reachable world shows.
use cloud_weave.Prelude.{
  ℕ, zero, suc, ◌+◌, ◌≤◌, String, Bool, ◌&&◌, ◌||◌, Option, none, some, ◌≡◌, refl, if◌then◌else◌,
  leb, ◌==◌, arith, sum_of,
}
use cloud_weave.Html.{Node, tag_count}
use cloud_weave.EventLoop.Effect.{Ticking}
use cloud_weave.Trig.{Trig}
use cloud_weave.Canvas.System.{
  Player, ChunkItem, active_chunk, NodeCoord, node_coords, Event, label_of, has,
}
use cloud_weave.Canvas.System.View.{page, view}
use cloud_weave.Canvas.System.View.Nodes.{flow, flows, node_card, node_cards}
use cloud_weave.Canvas.System.Playback.{Reachable, Reachable-IsRunning}

-- Whether a node stores a copy of a chunk.
abbrev pub holds : ChunkItem → ℕ → Bool
holds c id = (id == c.primary_node) || has c.replicas id

card_acks :
    (p : Player) (node : NodeCoord)
    → tag_count "polyline" (node_card p node)
      ≡ (if (p.step == 5) && holds (active_chunk p) node.id then 1 else 0)
unfolding node_card
card_acks p node = ground arith

Chosen : ChunkItem → Type 0
Chosen c =
    (if holds c 1 then 1 else 0)
      + (if holds c 2 then 1 else 0)
      + (if holds c 3 then 1 else 0)
      + (if holds c 4 then 1 else 0)
      + (if holds c 5 then 1 else 0)
    ≡ 3

active-copies : (p : Player) → Chosen (active_chunk p)
unfolding active_chunk Chosen
active-copies p = ground arith

cards_acks : (p : Player) → tag_count "polyline" (node_cards p) ≡ (if p.step == 5 then 3 else 0)
unfolding node_cards Chosen
cards_acks p = ground (arith, active-copies p, card_acks p)

-- The nodes to which a stage sends the chunk.
abbrev pub copies_sent : ℕ → ℕ
copies_sent step = if leb 4 step then 3 else if step == 3 then 1 else 0

flow_dots :
    (p : Player) (node : NodeCoord)
    → tag_count "motion.circle" (flow p node) ≡ (
        if (node.id == (active_chunk p).primary_node)
          || (leb 4 p.step && has (active_chunk p).replicas node.id)
        then 1
        else 0)
unfolding flow
flow_dots p node = ground arith

Sent : ℕ → ChunkItem → Type 0
Sent step c =
    sum_of
      (λ node.
        if (node.id == c.primary_node) || (leb 4 step && has c.replicas node.id) then 1 else 0)
      node_coords
    ≡ (if leb 4 step then 3 else 1)

active-Sent : (p : Player) → Sent p.step (active_chunk p)
unfolding active_chunk Sent
active-Sent p = ground arith

flows_dots :
    (p : Player)
    → tag_count "motion.circle" (flows p) ≡ copies_sent p.step + (if p.step == 5 then 2 else 0)
unfolding flows Sent
flows_dots p = ground (arith, active-Sent p, flow_dots p)

-- For every chosen chunk: one dot moves to the nodes in the distribution stage, and three from the
-- replication stage on, joined by two dots that return in the last stage, which marks three of the node
-- cards as written, and no earlier stage any.
pub copies-shown :
    (p : Player)
    → (tag_count "motion.circle" (flows p) ≡ copies_sent p.step + (if p.step == 5 then 2 else 0))
      × (tag_count "polyline" (node_cards p) ≡ (if p.step == 5 then 3 else 0))
copies-shown p = (flows_dots p, cards_acks p)

label_some : (n : ℕ) → 1 ≤ n → n ≤ 5 → (label : String) × (label_of n ≡ some label)
unfolding label_of
label_some zero l h = let bad : ⊥ = omega arith in elim bad [ ]
label_some (suc zero) l h = ("Upload", refl)
label_some (suc (suc zero)) l h = ("Chunking", refl)
label_some (suc (suc (suc zero))) l h = ("Distribution", refl)
label_some (suc (suc (suc (suc zero)))) l h = ("Replication", refl)
label_some (suc (suc (suc (suc (suc zero))))) l h = ("Complete", refl)
label_some (suc (suc (suc (suc (suc (suc n)))))) l h = let bad : ⊥ = omega arith in elim bad [ ]

page_of :
    (trig : Trig) (p : Player) (o : Option String) (label : String)
    → o ≡ some label
    → ◌≡◌ {A = Option (Node Event)}
        (elim o [ none ↦ none | some l ↦ some (page trig p l) ])
        (some (page trig p label))
page_of trig p o label e = rw e refl

-- In every reachable world the page is shown: the stage has a label to print.
pub view-Reachable :
    (trig : Trig) {w : Ticking Player}
    → Reachable w
    → (label : String) × (view trig w.state ≡ some (page trig w.state label))
unfolding view
view-Reachable trig {w} r =
    let i = (Reachable-IsRunning r).range in
    let (label, e) = label_some w.state.step i.step_low i.step_high in
    (label, page_of trig w.state (label_of w.state.step) label e)
