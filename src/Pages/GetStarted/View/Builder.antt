-- ===== src/Pages/GetStarted/View/Builder.antt =====
-- documentation/components/cta/GetStartedView.tsx: the builder of the compose file and the tabs of the clients.
use cloud_weave.Prelude.{String, Bool, true, false, not, List, [], ◌∷◌, same, if◌then◌else◌, cat}
use cloud_weave.Html.{Node, prop, on, nothing, say, element, ◌&◌, each, when}
use cloud_weave.Pages.GetStarted.{
  ClusterSize, one_node, three_node, five_node, replication, erasure, SdkTab, aws_cli, python, go,
  cweave, Setup, Event, set_cluster_size, set_storage_mode, set_enable_mtls, set_sdk_tab,
  is_replication, generate_compose,
}

abbrev pub size_name : ClusterSize → String
size_name one_node = "1-node"
size_name three_node = "3-node"
size_name five_node = "5-node"

abbrev pub sizes : List ClusterSize
sizes = one_node ∷ three_node ∷ five_node ∷ []

abbrev pub tab_name : SdkTab → String
tab_name aws_cli = "aws-cli"
tab_name python = "python"
tab_name go = "go"
tab_name cweave = "cweave"

abbrev pub is_tab : SdkTab → SdkTab → Bool
is_tab a b = same (tab_name a) (tab_name b)

unfoldable pub builder : Setup → Node Event
builder s =
    element "div"
      (prop "className"
          "p-6 sm:p-8 rounded-3xl border border-[#CBD5E1] bg-white shadow-sm space-y-6"
        ∷ [])
      ((element "div"
          (prop "className"
              "flex flex-col sm:flex-row sm:items-center justify-between gap-4 border-b border-[#E2E8F0] pb-4"
            ∷ [])
          ((element "div" [] (
              (element "span"
                (prop "className" "text-[10px] font-mono font-bold uppercase text-[#0E7FB4]" ∷ [])
                (say "Interactive Cluster Configurator"))
              & (element "h2" (prop "className" "text-xl font-bold text-[#03045E]" ∷ [])
                  (say "Generate Your Production Cluster Setup"))))
            & (element "span" (prop "className" "text-xs font-mono text-[#64748B]" ∷ [])
                (say "Outputs clean docker-compose.yml"))))
        & (element "div"
            (prop "className" "grid grid-cols-1 sm:grid-cols-3 gap-4 font-mono text-xs" ∷ [])
            ((element "div" (prop "className" "space-y-1.5" ∷ []) (
                (element "span"
                  (prop "className" "text-[#64748B] font-bold text-[11px] block uppercase" ∷ [])
                  (say "Cluster Topology"))
                & (element "div"
                    (prop "className"
                        "flex gap-1 bg-[#F8FAFC] p-1 rounded-xl border border-[#E2E8F0]"
                      ∷ [])
                    (each sizes (λ size.
                      element "button"
                        (prop "key" (size_name size)
                          ∷ on "onClick" (set_cluster_size size)
                          ∷ prop "className" (
                              cat "flex-1 py-1.5 rounded-lg font-bold transition-all " (
                                (if same (size_name s.cluster_size) (size_name size)
                                  then "bg-[#0E7FB4] text-white shadow-2xs"
                                  else "text-[#64748B] hover:text-[#03045E]")))
                          ∷ [])
                        (say (size_name size)))))))
              & (element "div" (prop "className" "space-y-1.5" ∷ []) (
                  (element "span"
                    (prop "className" "text-[#64748B] font-bold text-[11px] block uppercase" ∷ [])
                    (say "Durability Mode"))
                  & (element "div"
                      (prop "className"
                          "flex gap-1 bg-[#F8FAFC] p-1 rounded-xl border border-[#E2E8F0]"
                        ∷ [])
                      ((element "button"
                          (on "onClick" (set_storage_mode replication)
                            ∷ prop "className" (
                                cat "flex-1 py-1.5 rounded-lg font-bold transition-all " (
                                  (if is_replication s.storage_mode
                                    then "bg-[#0E7FB4] text-white shadow-2xs"
                                    else "text-[#64748B] hover:text-[#03045E]")))
                            ∷ [])
                          (say "Replication (N=3)"))
                        & (element "button"
                            (on "onClick" (set_storage_mode erasure)
                              ∷ prop "className" (
                                  cat "flex-1 py-1.5 rounded-lg font-bold transition-all " (
                                    (if not (is_replication s.storage_mode)
                                      then "bg-[#0E7FB4] text-white shadow-2xs"
                                      else "text-[#64748B] hover:text-[#03045E]")))
                              ∷ [])
                            (say "Erasure (K=4, M=2)"))))))
              & (element "div" (prop "className" "space-y-1.5" ∷ []) (
                  (element "span"
                    (prop "className" "text-[#64748B] font-bold text-[11px] block uppercase" ∷ [])
                    (say "Transport Security"))
                  & (element "div"
                      (prop "className"
                          "flex gap-1 bg-[#F8FAFC] p-1 rounded-xl border border-[#E2E8F0]"
                        ∷ [])
                      ((element "button"
                          (on "onClick" (set_enable_mtls true)
                            ∷ prop "className" (
                                cat "flex-1 py-1.5 rounded-lg font-bold transition-all " (
                                  (if s.enable_mtls
                                    then "bg-[#0E7FB4] text-white shadow-2xs"
                                    else "text-[#64748B] hover:text-[#03045E]")))
                            ∷ [])
                          (say "mTLS Enabled"))
                        & (element "button"
                            (on "onClick" (set_enable_mtls false)
                              ∷ prop "className" (
                                  cat "flex-1 py-1.5 rounded-lg font-bold transition-all " (
                                    (if not s.enable_mtls
                                      then "bg-[#0E7FB4] text-white shadow-2xs"
                                      else "text-[#64748B] hover:text-[#03045E]")))
                              ∷ [])
                            (say "Plain HTTP"))))))))
        & (element "div" [] (
            element "CodeBlock"
              (prop "code" (generate_compose s.cluster_size s.storage_mode s.enable_mtls)
                ∷ prop "language" "yaml"
                ∷ prop "filename" "docker-compose.yml"
                ∷ [])
              nothing)))

unfoldable pub integration : Setup → Node Event
integration s = element "div" (prop "className" "space-y-4" ∷ []) (
    (element "div" (prop "className" "text-center space-y-1" ∷ []) (
      (element "h2" (prop "className" "text-2xl font-bold text-[#03045E]" ∷ [])
        (say "Connect with Your Favorite Tool"))
      & (element "p" (prop "className" "text-xs text-[#64748B]" ∷ [])
          (say "CloudWeave works with any tool that speaks S3."))))
    & (element "div" (prop "className" "flex justify-center" ∷ []) (
        element "div"
          (prop "className"
              "inline-flex gap-1.5 p-1 rounded-2xl bg-[#F8FAFC] border border-[#E2E8F0] font-mono text-xs"
            ∷ [])
          ((element "button"
              (on "onClick" (set_sdk_tab aws_cli)
                ∷ prop "className" (
                    cat "px-3.5 py-1.5 rounded-xl font-bold transition-all " (
                      (if is_tab aws_cli s.sdk_tab
                        then "bg-[#0E7FB4] text-white shadow-xs"
                        else "text-[#64748B] hover:text-[#03045E]")))
                ∷ [])
              (say "AWS CLI"))
            & (element "button"
                (on "onClick" (set_sdk_tab python)
                  ∷ prop "className" (
                      cat "px-3.5 py-1.5 rounded-xl font-bold transition-all " (
                        (if is_tab python s.sdk_tab
                          then "bg-[#0E7FB4] text-white shadow-xs"
                          else "text-[#64748B] hover:text-[#03045E]")))
                  ∷ [])
                (say "Python (boto3)"))
            & (element "button"
                (on "onClick" (set_sdk_tab go)
                  ∷ prop "className" (
                      cat "px-3.5 py-1.5 rounded-xl font-bold transition-all " (
                        (if is_tab go s.sdk_tab
                          then "bg-[#0E7FB4] text-white shadow-xs"
                          else "text-[#64748B] hover:text-[#03045E]")))
                  ∷ [])
                (say "Go Client"))
            & (element "button"
                (on "onClick" (set_sdk_tab cweave)
                  ∷ prop "className" (
                      cat "px-3.5 py-1.5 rounded-xl font-bold transition-all " (
                        (if is_tab cweave s.sdk_tab
                          then "bg-[#0E7FB4] text-white shadow-xs"
                          else "text-[#64748B] hover:text-[#03045E]")))
                  ∷ [])
                (say "cweave CLI")))))
    & (element "div" (prop "className" "max-w-3xl mx-auto" ∷ []) (
        (when (is_tab aws_cli s.sdk_tab) (
          element "CodeBlock"
            (prop "code" (
                "# Upload file to local CloudWeave\naws s3 cp video.mp4 s3://media/video.mp4 --endpoint-url http://localhost:9000\n\n# Download back\naws s3 cp s3://media/video.mp4 local_copy.mp4 --endpoint-url http://localhost:9000")
              ∷ prop "language" "bash"
              ∷ [])
            nothing))
        & (when (is_tab python s.sdk_tab) (
            element "CodeBlock"
              (prop "code" (
                  "import boto3\n\ns3 = boto3.client(\n    's3',\n    endpoint_url='http://localhost:9000',\n    aws_access_key_id='master-secret-key',\n    aws_secret_access_key='admin'\n)\n\n# Put object\ns3.put_object(Bucket='datasets', Key='train.csv', Body=open('train.csv', 'rb'))")
                ∷ prop "language" "python"
                ∷ [])
              nothing))
        & (when (is_tab go s.sdk_tab) (
            element "CodeBlock"
              (prop "code" (
                  "c := client.NewClient(\"http://localhost:9000\", \"master-secret-key\", \"admin\")\nmanifest, err := c.PutObject(ctx, \"media\", \"video.mp4\", fileStream)")
                ∷ prop "language" "go"
                ∷ [])
              nothing))
        & (when (is_tab cweave s.sdk_tab) (
            element "CodeBlock"
              (prop "code"
                  ("cweave put --file data.iso --key images/data.iso --node http://localhost:9000")
                ∷ prop "language" "bash"
                ∷ [])
              nothing)))))
