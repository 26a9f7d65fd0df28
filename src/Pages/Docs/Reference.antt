-- ===== src/Pages/Docs/Reference.antt =====
-- documentation/components/docs/DocsReferenceView.tsx: the reference by section. An event is the id of the
-- section clicked on.
pub mod Setup
pub mod Interfaces
pub mod Shown
mod Tests
use cloud_weave.Prelude.{
  ℕ, ◌+◌, String, Bool, true, false, not, ◌&&◌, ◌||◌, List, [], ◌∷◌, map, if◌then◌else◌, show, cat,
  concat, same,
}
use cloud_weave.Html.{
  Node, prop, num, flag, fields, on, nothing, say, element, ◌&◌, each, each_from, when,
}
use cloud_weave.Pages.Docs.Reference.Setup.{quickstart_article, cli_article}
use cloud_weave.Pages.Docs.Reference.Interfaces.{
  s3_api_article, go_sdk_article, mtls_security_article,
}

pub record DocSection : Type 0 where
  pub id : String
  pub title : String
  pub category : String
  pub icon : String

abbrev pub initial : String
initial = "quickstart"

abbrev pub doc_sections : List DocSection
doc_sections =
    record {
      id = "quickstart";
      title = "1. Quickstart & Deployment";
      category = "GETTING STARTED";
      icon = "Terminal";
    }
    ∷ record {
      id = "cli";
      title = "2. CLI Tool (cweave)";
      category = "REFERENCE";
      icon = "Terminal";
    }
    ∷ record {
      id = "s3-api";
      title = "3. S3 REST & SigV4 API";
      category = "REFERENCE";
      icon = "HardDrive";
    }
    ∷ record { id = "go-sdk"; title = "4. Go Client SDK"; category = "LIBRARIES"; icon = "Server" }
    ∷ record {
      id = "mtls-security";
      title = "5. mTLS & Security";
      category = "OPERATIONS";
      icon = "ShieldCheck";
    }
    ∷ []

unfoldable pub sidebar : String → Node String
sidebar active_section_id =
    element "aside" (prop "className" "w-full md:w-64 shrink-0 space-y-4" ∷ []) (
      element "div"
        (prop "className"
            "p-4 rounded-xl border border-[#26262B] bg-[#19191C] space-y-3 sticky top-24"
          ∷ [])
        ((element "div"
            (prop "className"
                "font-mono text-[11px] font-bold text-[#8B8B8F] uppercase tracking-wider"
              ∷ [])
            (say "Documentation Index"))
          & (element "nav" (prop "className" "space-y-1 font-mono text-xs" ∷ []) (
              each doc_sections (λ sec.
                let is_selected = same active_section_id sec.id in
                element "button"
                  (prop "key" sec.id
                    ∷ on "onClick" sec.id
                    ∷ prop "className" (
                        cat
                          "w-full flex items-center gap-2 px-3 py-2 rounded text-left transition-colors cursor-pointer "
                          ((if is_selected
                            then "bg-[#000000] border border-[#7A1F2B] text-[#EDE8DF] font-bold shadow-xs"
                            else "text-[#8B8B8F] hover:text-[#EDE8DF] hover:bg-[#222226]")))
                    ∷ [])
                  ((element sec.icon
                      (prop "className" (
                          cat "w-3.5 h-3.5 shrink-0 "
                            ((if is_selected then "text-[#7A1F2B]" else "text-[#A6A9AE]")))
                        ∷ [])
                      nothing)
                    & (element "span" (prop "className" "truncate" ∷ []) (say sec.title))))))))

unfoldable pub view : String → Node String
unfolding sidebar quickstart_article cli_article s3_api_article go_sdk_article mtls_security_article
view active_section_id =
    element "div"
      (prop "className"
          "w-full flex flex-col md:flex-row gap-8 font-sans selection:bg-[#7A1F2B]/40 selection:text-[#EDE8DF]"
        ∷ [])
      ((sidebar active_section_id)
        & (element "main" (prop "className" "flex-1 min-w-0 space-y-10" ∷ []) (
            (when (same active_section_id "quickstart") quickstart_article)
            & (when (same active_section_id "cli") cli_article)
            & (when (same active_section_id "s3-api") s3_api_article)
            & (when (same active_section_id "go-sdk") go_sdk_article)
            & (when (same active_section_id "mtls-security") mtls_security_article))))
