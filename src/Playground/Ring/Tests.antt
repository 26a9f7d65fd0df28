-- ===== src/Playground/Ring/Tests.antt =====
-- An instance of the theorem about ConsistentHashRing.tsx with a chunk chosen and its primary down.
use cloud_weave.Prelude.{◌≡◌, ◌∷◌}
use cloud_weave.Playground.Ring.{
  Ring, initial, active_chunk, chunk_angle, toggle_node, select_chunk, handle,
}
use cloud_weave.Playground.Ring.Placement.{
  Reachable, open_page, event, successors, placement-successors,
}

abbrev moved : Ring
moved = handle (toggle_node "node-4") (handle (select_chunk "chunk-b") (initial "chunk-a"))

moved-Reachable : Reachable moved
moved-Reachable =
    event (toggle_node "node-4") (event (select_chunk "chunk-b") (open_page "chunk-a"))

placement-successors_example :
    (active_chunk moved).primary_node ∷ (active_chunk moved).replicas
    ≡ successors 3 (chunk_angle moved) moved.nodes
placement-successors_example = placement-successors moved-Reachable
