-- ===== src/Pages/Docs/Reader/Articles.antt =====
-- DocsReader.tsx: which of the topics have an article.
use text.Mathlib.TextEquality.{eq_iff}
use cloud_weave.Prelude.{
  ℕ, String, Option, List, map, ◌||◌, same, if◌then◌else◌, ◌≡◌, refl, sym, subst, Bool-cases, inl,
  inr,
}
use cloud_weave.Html.{tag_count}
use cloud_weave.Ui.Tabs.{Reachable}
use cloud_weave.Pages.Docs.Reader.{initial, topics, view}

abbrev pub offered : List String
offered = map (λ t. t.id) topics

abbrev pub articles_of : String → ℕ
articles_of topic = if same topic "fastcdc" || same topic "cas" then 1 else 0

article_count : (topic : String) → tag_count "article" (view topic) ≡ articles_of topic
unfolding view
article_count topic = elim (Bool-cases (same topic "fastcdc")) [
  | inl e ↦
      subst (λ t. tag_count "article" (view t) ≡ articles_of t) (sym ((eq_iff topic "fastcdc").0 e))
        refl
  | inr e ↦ elim (Bool-cases (same topic "cas")) [ inl f ↦ rw (e, f) refl | inr f ↦ rw (e, f) refl ]
]

-- Whichever topic the reader is opened on and whichever topics were clicked on, it shows one article if
-- the last one is the chunking or the deduplication, and none for any other topic.
pub article-topics :
    (given : Option String) {topic : String}
    → Reachable (initial given) offered topic
    → tag_count "article" (view topic) ≡ articles_of topic
article-topics given {topic} r = article_count topic
