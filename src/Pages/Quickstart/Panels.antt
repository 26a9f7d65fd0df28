-- ===== src/Pages/Quickstart/Panels.antt =====
-- QuickstartView.tsx: every tab has its panel.
use cloud_weave.Prelude.{String, List, [], ◌∷◌, ◌≡◌, refl}
use cloud_weave.Html.{tag_count}
use cloud_weave.Ui.Tabs.{Reachable, Reachable-All}
use cloud_weave.Pages.Quickstart.{initial, view}

-- The tabs of the five buttons.
abbrev pub offered : List String
offered = "docker" ∷ "compose" ∷ "aws-cli" ∷ "boto3" ∷ "go-sdk" ∷ []

-- Whichever buttons were clicked on, the page shows exactly one block of code.
pub code-shown :
    {tab : String} → Reachable initial offered tab → tag_count "CodeBlock" (view tab) ≡ 1
unfolding view
code-shown {tab} r =
    Reachable-All (λ t. tag_count "CodeBlock" (view t) ≡ 1) initial offered tab refl
      (refl, (refl, (refl, (refl, (refl, tt))))) r
