-- ===== src/Layout/Search/Tests.antt =====
-- Instances of the theorems about SearchModal.tsx.
use mathlib.Core.List.{Memᴰ}
use cloud_weave.Prelude.{true, false, [], ◌∷◌, map, ◌≡◌, ◌↔◌}
use cloud_weave.Html.{clicks}
use cloud_weave.Layout.Search.{filtered, stop, close, select, view}
use cloud_weave.Layout.Search.Items.{SearchItem, search_items}
use cloud_weave.Layout.Search.Found.{Mentions, filtered_iff, clicks-search}

abbrev docker : SearchItem
docker = record {
  id = "quickstart-docker";
  title = "Quick Start with Docker & Compose";
  category = "Quickstart";
  description = "Spin up 5-node distributed cluster locally in seconds";
  icon = "Terminal";
}

filtered_iff_example :
    Memᴰ docker (filtered "DOCKER") ↔ (Memᴰ docker search_items × Mentions "DOCKER" docker)
filtered_iff_example = filtered_iff "DOCKER" docker

clicks-search_example :
    (clicks (view false "quorum") ≡ [])
    × (clicks (view true "quorum") ≡ stop ∷ close ∷ map (λ i. select i.id) (filtered "quorum"))
clicks-search_example = clicks-search "quorum"
