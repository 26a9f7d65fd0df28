-- ===== src/Pages/Docs/Reference/Tests.antt =====
-- Instances of the theorem about DocsReferenceView.tsx after two clicks.
use cloud_weave.Prelude.{◌≡◌, refl}
use cloud_weave.Html.{tag_count}
use cloud_weave.Ui.Tabs.{Reachable, open_page, click}
use cloud_weave.Pages.Docs.Reference.{initial, view}
use cloud_weave.Pages.Docs.Reference.Shown.{offered, article-shown}

security-Reachable : Reachable initial offered "mtls-security"
security-Reachable = click 4 "mtls-security" (click 2 "s3-api" open_page refl) refl

article-shown_example : tag_count "article" (view "mtls-security") ≡ 1
article-shown_example = article-shown security-Reachable
