-- ===== src/Pages/Docs/Reader/Tests.antt =====
-- Instances of the theorem about DocsReader.tsx, opened on its default topic, after a click.
use cloud_weave.Prelude.{none, ◌≡◌, refl}
use cloud_weave.Html.{tag_count}
use cloud_weave.Ui.Tabs.{open_page, click}
use cloud_weave.Pages.Docs.Reader.{view}
use cloud_weave.Pages.Docs.Reader.Articles.{articles_of, article-topics}

article-topics_example : tag_count "article" (view "quorum") ≡ articles_of "quorum"
article-topics_example = article-topics none (click 3 "quorum" open_page refl)
