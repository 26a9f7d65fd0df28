-- ===== src/Pages/Quickstart.antt =====
-- documentation/components/quickstart/QuickstartView.tsx: the quick start by tab. An event is the tab
-- clicked on.
pub mod Panels
use cloud_weave.Prelude.{
  ℕ, ◌+◌, String, Bool, true, false, not, ◌&&◌, ◌||◌, List, [], ◌∷◌, map, if◌then◌else◌, show, cat,
  concat, same,
}
use cloud_weave.Html.{
  Node, prop, num, flag, fields, on, nothing, say, element, ◌&◌, each, each_from, when,
}

abbrev pub initial : String
initial = "docker"

unfoldable pub header : String → Node String
header tab =
    element "div" (prop "className" "p-6 rounded-xl border border-[#26262B] bg-[#19191C]" ∷ []) (
      (element "div" (prop "className" "flex items-center gap-2" ∷ []) (
        (element "span"
          (prop "className"
              "rounded px-2.5 py-1 text-[10px] font-mono font-bold text-[#A6A9AE] bg-[#000000] border border-[#26262B] uppercase"
            ∷ [])
          (say "Quick Start Guide"))
        & (element "span" (prop "className" "text-xs font-mono text-[#8B8B8F]" ∷ [])
            (say "Local Cluster Setup"))))
      & (element "h2"
          (prop "className" "text-2xl font-serif font-bold tracking-tight text-[#EDE8DF] mt-2" ∷ [])
          (say "Get Started in 5 Minutes"))
      & (element "p"
          (prop "className" "text-xs sm:text-sm font-mono text-[#8B8B8F] mt-1 max-w-2xl" ∷ [])
          (say
            "Spin up a local CloudWeave node or 5-node distributed cluster, and connect using standard AWS CLI, boto3, or the native Go SDK."))
      & (element "div"
          (prop "className"
              "flex flex-wrap gap-2 mt-4 pt-3 border-t border-[#26262B] font-mono text-xs"
            ∷ [])
          ((element "button"
              (on "onClick" "docker"
                ∷ prop "className" (
                    cat "px-3 py-1.5 rounded font-semibold transition-all cursor-pointer " (
                      (if same tab "docker"
                        then "bg-[#7A1F2B] text-[#EDE8DF] shadow-xs"
                        else "bg-[#000000] text-[#8B8B8F] border border-[#26262B] hover:text-[#EDE8DF]")))
                ∷ [])
              (say "Docker Run"))
            & (element "button"
                (on "onClick" "compose"
                  ∷ prop "className" (
                      cat "px-3 py-1.5 rounded font-semibold transition-all cursor-pointer " (
                        (if same tab "compose"
                          then "bg-[#7A1F2B] text-[#EDE8DF] shadow-xs"
                          else "bg-[#000000] text-[#8B8B8F] border border-[#26262B] hover:text-[#EDE8DF]")))
                  ∷ [])
                (say "Docker Compose (5 Nodes)"))
            & (element "button"
                (on "onClick" "aws-cli"
                  ∷ prop "className" (
                      cat "px-3 py-1.5 rounded font-semibold transition-all cursor-pointer " (
                        (if same tab "aws-cli"
                          then "bg-[#7A1F2B] text-[#EDE8DF] shadow-xs"
                          else "bg-[#000000] text-[#8B8B8F] border border-[#26262B] hover:text-[#EDE8DF]")))
                  ∷ [])
                (say "AWS CLI"))
            & (element "button"
                (on "onClick" "boto3"
                  ∷ prop "className" (
                      cat "px-3 py-1.5 rounded font-semibold transition-all cursor-pointer " (
                        (if same tab "boto3"
                          then "bg-[#7A1F2B] text-[#EDE8DF] shadow-xs"
                          else "bg-[#000000] text-[#8B8B8F] border border-[#26262B] hover:text-[#EDE8DF]")))
                  ∷ [])
                (say "Python (boto3)"))
            & (element "button"
                (on "onClick" "go-sdk"
                  ∷ prop "className" (
                      cat "px-3 py-1.5 rounded font-semibold transition-all cursor-pointer " (
                        (if same tab "go-sdk"
                          then "bg-[#7A1F2B] text-[#EDE8DF] shadow-xs"
                          else "bg-[#000000] text-[#8B8B8F] border border-[#26262B] hover:text-[#EDE8DF]")))
                  ∷ [])
                (say "Go SDK")))))

unfoldable pub panels : String → Node String
panels tab =
    (when (same tab "docker") (
      element "div" (prop "className" "space-y-4 font-mono text-xs" ∷ []) (
        element "CodeBlock"
          (prop "code" (
              "# Pull & Run CloudWeave Standalone\ndocker run -d \\\n  --name cloudweave \\\n  -p 9000:9000 \\\n  -e CLOUDWEAVE_API_KEYS=\"root-key=admin-secret\" \\\n  -v /tmp/cloudweave-data:/data \\\n  ghcr.io/jhanvi857/cloudweave:latest")
            ∷ prop "language" "bash"
            ∷ prop "filename" "Run Standalone"
            ∷ [])
          nothing)))
    & (when (same tab "compose") (
        element "div" (prop "className" "space-y-4 font-mono text-xs" ∷ []) (
          element "CodeBlock"
            (prop "code" (
                "# Start 5-Node Quorum Mesh\ngit clone https://github.com/jhanvi857/CloudWeave.git\ncd CloudWeave\ndocker compose up -d\n\n# Verify Ring Status\ndocker compose logs -f node1")
              ∷ prop "language" "bash"
              ∷ prop "filename" "Docker Compose"
              ∷ [])
            nothing)))
    & (when (same tab "aws-cli") (
        element "div" (prop "className" "space-y-4 font-mono text-xs" ∷ []) (
          element "CodeBlock"
            (prop "code" (
                "# Configure S3 endpoint\naws configure set aws_access_key_id root-key\naws configure set aws_secret_access_key admin-secret\n\n# Upload & Download\naws --endpoint-url=http://localhost:9000 s3 cp dataset.tar s3://backups/dataset.tar\naws --endpoint-url=http://localhost:9000 s3 cp s3://backups/dataset.tar ./restored.tar")
              ∷ prop "language" "bash"
              ∷ prop "filename" "AWS CLI S3"
              ∷ [])
            nothing)))
    & (when (same tab "boto3") (
        element "div" (prop "className" "space-y-4 font-mono text-xs" ∷ []) (
          element "CodeBlock"
            (prop "code" (
                "import boto3\n\ns3 = boto3.client(\n    's3',\n    endpoint_url='http://localhost:9000',\n    aws_access_key_id='root-key',\n    aws_secret_access_key='admin-secret'\n)\n\n# Upload object with FastCDC and Quorum\nwith open('photo.png', 'rb') as f:\n    s3.put_object(Bucket='media', Key='photo.png', Body=f)")
              ∷ prop "language" "python"
              ∷ prop "filename" "boto3_example.py"
              ∷ [])
            nothing)))
    & (when (same tab "go-sdk") (
        element "div" (prop "className" "space-y-4 font-mono text-xs" ∷ []) (
          element "CodeBlock"
            (prop "code" (
                "package main\n\nimport (\n    \"context\"\n    \"os\"\n    \"github.com/jhanvi857/cloudweave/client\"\n)\n\nfunc main() {\n    c, _ := client.New(client.Config{\n        Endpoint:  \"http://localhost:9000\",\n        AccessKey: \"root-key\",\n        SecretKey: \"admin-secret\",\n    })\n    \n    f, _ := os.Open(\"data.bin\")\n    defer f.Close()\n    \n    c.PutObject(context.Background(), \"bucket\", \"data.bin\", f)\n}")
              ∷ prop "language" "go"
              ∷ prop "filename" "main.go"
              ∷ [])
            nothing)))

unfoldable pub view : String → Node String
unfolding header panels
view tab = element "div" (prop "className" "space-y-6 font-sans" ∷ []) ((header tab) & (panels tab))
