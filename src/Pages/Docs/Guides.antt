-- ===== src/Pages/Docs/Guides.antt =====
-- documentation/components/docs/DocsView.tsx: guides by section. An event is the id of the section
-- clicked on.
use cloud_weave.Prelude.{String, List, [], ◌∷◌, if◌then◌else◌, cat, same}
use cloud_weave.Html.{Node, prop, on, nothing, say, element, ◌&◌, each, when}

pub record DocSection : Type 0 where
  pub id : String
  pub label : String
  pub icon : String

abbrev pub initial : String
initial = "quickstart"

abbrev pub sections : List DocSection
sections =
    record { id = "quickstart"; label = "Quickstart (Docker)"; icon = "Terminal" }
    ∷ record { id = "s3-api"; label = "S3 REST Endpoints"; icon = "Server" }
    ∷ record { id = "aws-cli"; label = "AWS CLI Guide"; icon = "Terminal" }
    ∷ record { id = "boto3"; label = "Python (boto3)"; icon = "FileCode" }
    ∷ record { id = "go-sdk"; label = "Native Go SDK"; icon = "FileCode" }
    ∷ record { id = "cweave-cli"; label = "cweave CLI Tool"; icon = "Terminal" }
    ∷ record { id = "config"; label = "Configuration & Env"; icon = "Sliders" }
    ∷ []

unfoldable pub quickstart_guide : Node String
quickstart_guide = element "div" (prop "className" "space-y-4" ∷ []) (
    (element "h2" (prop "className" "text-2xl font-serif font-bold text-[#EDE8DF]" ∷ [])
      (say "Quickstart with Docker & Compose"))
    & (element "p" [] (
        say
          "CloudWeave is distributed as a lightweight, multi-architecture static binary on GHCR (`linux/amd64` and `linux/arm64`)."))
    & (element "h3" (prop "className" "font-bold text-[#EDE8DF] pt-2" ∷ [])
        (say "Option A: Run Standalone Instance"))
    & (element "CodeBlock"
        (prop "code" (
            "# Pull prebuilt image from GHCR\ndocker pull ghcr.io/jhanvi857/cloudweave:latest\n\n# Run container on port 9000\ndocker run -d \\\n  --name cloudweave \\\n  -p 9000:9000 \\\n  --memory=256m \\\n  -e CLOUDWEAVE_API_KEYS=\"master-secret-key=admin\" \\\n  -v cloudweave_data:/data \\\n  ghcr.io/jhanvi857/cloudweave:latest")
          ∷ prop "language" "bash"
          ∷ prop "filename" "standalone.sh"
          ∷ [])
        nothing)
    & (element "h3" (prop "className" "font-bold text-[#EDE8DF] pt-2" ∷ [])
        (say "Option B: 5-Node Distributed Mesh Cluster"))
    & (element "CodeBlock"
        (prop "code" (
            "# Spin up 5 node cluster with automatic quorum and failure detection\ndocker compose up -d\n\n# Check live cluster status\ndocker compose logs -f")
          ∷ prop "language" "bash"
          ∷ prop "filename" "cluster.sh"
          ∷ [])
        nothing))

unfoldable pub s3_api_guide : Node String
s3_api_guide = element "div" (prop "className" "space-y-4" ∷ []) (
    (element "h2" (prop "className" "text-2xl font-serif font-bold text-[#EDE8DF]" ∷ [])
      (say "AWS S3 REST Compatibility"))
    & (element "p" []
        (say "CloudWeave implements standard S3 REST endpoints with SigV4 signature verification."))
    & (element "CodeBlock"
        (prop "code" (
            "# Upload an object\ncurl -X PUT http://localhost:9000/bucket/file.mp4 \\\n  -H \"Authorization: AWS4-HMAC-SHA256 ...\" \\\n  --data-binary @file.mp4")
          ∷ prop "language" "bash"
          ∷ prop "filename" "curl-put.sh"
          ∷ [])
        nothing))

unfoldable pub switcher : String → Node String
switcher active_doc =
    element "div"
      (prop "className"
          "flex items-center gap-2 overflow-x-auto pb-3 border-b border-[#26262B] font-mono text-xs"
        ∷ [])
      (each sections (λ s.
        let is_selected = same active_doc s.id in
        element "button"
          (prop "key" s.id
            ∷ on "onClick" s.id
            ∷ prop "className" (
                cat
                  "flex items-center gap-2 px-3.5 py-2 rounded-lg shrink-0 font-medium transition-all cursor-pointer "
                  ((if is_selected
                    then "bg-[#7A1F2B] text-[#EDE8DF] font-bold shadow-xs"
                    else "bg-[#19191C] text-[#8B8B8F] border border-[#26262B] hover:text-[#EDE8DF] hover:bg-[#222226]")))
            ∷ [])
          ((element s.icon (prop "className" "w-3.5 h-3.5" ∷ []) nothing)
            & (element "span" [] (say s.label)))))

unfoldable pub view : String → Node String
unfolding switcher quickstart_guide s3_api_guide
view active_doc =
    element "div"
      (prop "className"
          "w-full max-w-4xl mx-auto space-y-10 py-4 font-sans selection:bg-[#7A1F2B]/40 selection:text-[#EDE8DF]"
        ∷ [])
      ((element "div" (prop "className" "text-center space-y-3 max-w-2xl mx-auto" ∷ []) (
          (element "div"
            (prop "className"
                "inline-flex items-center gap-2 px-3 py-1 text-xs font-mono border border-[#26262B] rounded-full bg-[#19191C] text-[#A6A9AE]"
              ∷ [])
            ((element "span" (prop "className" "w-2 h-2 rounded-full bg-[#7A1F2B]" ∷ []) nothing)
              & (element "span" [] (say "API Documentation"))))
          & (element "h1"
              (prop "className" "text-4xl font-serif font-bold tracking-tight text-[#EDE8DF]" ∷ [])
              (say "API, SDKs & Integration Guides"))
          & (element "p" (prop "className" "text-sm font-mono text-[#8B8B8F] leading-relaxed" ∷ [])
              (say
                "Complete technical reference for running CloudWeave and integrating with standard S3 tools."))))
        & (switcher active_doc)
        & (element "article"
            (prop "className" "space-y-6 text-sm text-[#8B8B8F] leading-relaxed" ∷ [])
            ((when (same active_doc "quickstart") quickstart_guide)
              & (when (same active_doc "s3-api") s3_api_guide))))
