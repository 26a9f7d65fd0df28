-- ===== src/Pages/Docs/Reference/Shown.antt =====
-- DocsReferenceView.tsx: every section that can be chosen has an article.
use cloud_weave.Prelude.{String, List, map, ◌≡◌, refl}
use cloud_weave.Html.{tag_count}
use cloud_weave.Ui.Tabs.{Reachable, Reachable-All}
use cloud_weave.Pages.Docs.Reference.{initial, doc_sections, view}

abbrev pub offered : List String
offered = map (λ s. s.id) doc_sections

-- Whichever sections were clicked on, the page shows exactly one article.
pub article-shown : {id : String} → Reachable initial offered id → tag_count "article" (view id) ≡ 1
unfolding view
article-shown {id} r =
    Reachable-All (λ t. tag_count "article" (view t) ≡ 1) initial offered id refl
      (refl, (refl, (refl, (refl, (refl, tt))))) r
