-- ===== src/Pages/Docs/Reference/Setup.antt =====
-- documentation/components/docs/DocsReferenceView.tsx: the articles on the setup and the command line.
use cloud_weave.Prelude.{String, [], ◌∷◌}
use cloud_weave.Html.{Node, prop, nothing, say, element, ◌&◌}

unfoldable pub quickstart_article : Node String
quickstart_article = element "article" (prop "className" "space-y-6" ∷ []) (
    (element "div" (prop "className" "border-b border-[#26262B] pb-4 space-y-1" ∷ []) (
      (element "span" (prop "className" "text-xs font-mono text-[#A6A9AE] font-semibold" ∷ [])
        (say "GETTING STARTED"))
      & (element "h1" (prop "className" "text-3xl font-serif font-bold text-[#EDE8DF]" ∷ [])
          (say "Quickstart & Cluster Setup"))
      & (element "p" (prop "className" "text-xs font-mono text-[#8B8B8F]" ∷ []) (
          say
            "Run CloudWeave as a standalone developer node or as a 5-node distributed cluster in seconds."))))
    & (element "div" (prop "className" "space-y-4 font-mono text-xs" ∷ []) (
        (element "h3" (prop "className" "text-sm font-bold text-[#EDE8DF]" ∷ [])
          (say "Option A: Standalone Developer Node"))
        & (element "p" (prop "className" "text-xs font-sans text-[#8B8B8F]" ∷ []) (
            say
              "Compiles the single Go binary with zero CGO dependencies and starts storage gateway on port 8080."))
        & (element "CodeBlock"
            (prop "code" (
                "# 1. Install CLI and Node binary\ngo install github.com/jhanvi857/cloudweave/cmd/node@latest\ngo install github.com/jhanvi857/cloudweave/cmd/cweave@latest\n\n# 2. Start standalone storage node\nnode --port 8080 --data ./data-node1 --addr localhost:8080\n\n# 3. Put and Get an object via cweave CLI\ncweave put video.mp4 --endpoint http://localhost:8080\ncweave get video.mp4 --output downloaded.mp4 --endpoint http://localhost:8080")
              ∷ prop "language" "bash"
              ∷ prop "filename" "Terminal"
              ∷ [])
            nothing)))
    & (element "div"
        (prop "className" "space-y-4 font-mono text-xs pt-4 border-t border-[#26262B]" ∷ [])
        ((element "h3" (prop "className" "text-sm font-bold text-[#EDE8DF]" ∷ [])
            (say "Option B: 5-Node Quorum Cluster with Docker Compose"))
          & (element "p" (prop "className" "text-xs font-sans text-[#8B8B8F]" ∷ []) (
              say
                "Spins up 5 containerized storage nodes connected via consistent hash ring with gossip failure detection."))
          & (element "CodeBlock"
              (prop "code" (
                  "# Clone repo & boot cluster\ngit clone https://github.com/jhanvi857/CloudWeave.git\ncd CloudWeave\n\n# Spin up 5 storage nodes + gateway\ndocker-compose up -d\n\n# Verify cluster status\ncweave cluster status --endpoint http://localhost:8080")
                ∷ prop "language" "bash"
                ∷ prop "filename" "Terminal"
                ∷ [])
              nothing))))

unfoldable pub cli_article : Node String
cli_article = element "article" (prop "className" "space-y-6" ∷ []) (
    (element "div" (prop "className" "border-b border-[#26262B] pb-4 space-y-1" ∷ []) (
      (element "span" (prop "className" "text-xs font-mono text-[#A6A9AE] font-semibold" ∷ [])
        (say "REFERENCE"))
      & (element "h1" (prop "className" "text-3xl font-serif font-bold text-[#EDE8DF]" ∷ [])
          (say "Command-Line Interface (cweave)"))
      & (element "p" (prop "className" "text-xs font-mono text-[#8B8B8F]" ∷ []) (
          say
            "Complete CLI command reference for managing objects, verifying hashes, and monitoring cluster health."))))
    & (element "div" (prop "className" "space-y-6 font-mono text-xs" ∷ []) (
        (element "div"
          (prop "className" "p-4 rounded-lg bg-[#19191C] border border-[#26262B] space-y-3" ∷ [])
          ((element "span" (prop "className" "font-bold text-[#EDE8DF] block" ∷ [])
              (say "cweave put <file>"))
            & (element "p" (prop "className" "font-sans text-xs text-[#8B8B8F]" ∷ []) (
                say
                  "Splits local file using FastCDC, generates SHA-256 CAS IDs, and writes chunks with N=3 quorum."))
            & (element "CodeBlock"
                (prop "code" (
                    "cweave put ./large_dataset.parquet --bucket warehouse --endpoint http://localhost:8080")
                  ∷ prop "language" "bash"
                  ∷ [])
                nothing)))
        & (element "div"
            (prop "className" "p-4 rounded-lg bg-[#19191C] border border-[#26262B] space-y-3" ∷ [])
            ((element "span" (prop "className" "font-bold text-[#EDE8DF] block" ∷ [])
                (say "cweave get <key>"))
              & (element "p" (prop "className" "font-sans text-xs text-[#8B8B8F]" ∷ []) (
                  say
                    "Queries R=2 read quorum, verifies CAS checksums, reassembles chunk stream, and writes to disk."))
              & (element "CodeBlock"
                  (prop "code" (
                      "cweave get large_dataset.parquet --output ./restored.parquet --endpoint http://localhost:8080")
                    ∷ prop "language" "bash"
                    ∷ [])
                  nothing)))
        & (element "div"
            (prop "className" "p-4 rounded-lg bg-[#19191C] border border-[#26262B] space-y-3" ∷ [])
            ((element "span" (prop "className" "font-bold text-[#EDE8DF] block" ∷ [])
                (say "cweave cluster status"))
              & (element "p" (prop "className" "font-sans text-xs text-[#8B8B8F]" ∷ []) (
                  say
                    "Inspects live ring membership, active vnodes, heartbeat latency, and replication status."))
              & (element "CodeBlock"
                  (prop "code" ("cweave cluster status --endpoint http://localhost:8080")
                    ∷ prop "language" "bash"
                    ∷ [])
                  nothing))))))
