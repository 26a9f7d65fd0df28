-- ===== src/Pages/Docs/Reference/Interfaces.antt =====
-- documentation/components/docs/DocsReferenceView.tsx: the articles on the interfaces and on security.
use cloud_weave.Prelude.{String, [], ◌∷◌}
use cloud_weave.Html.{Node, prop, nothing, say, element, ◌&◌}

unfoldable pub s3_api_article : Node String
s3_api_article = element "article" (prop "className" "space-y-6" ∷ []) (
    (element "div" (prop "className" "border-b border-[#26262B] pb-4 space-y-1" ∷ []) (
      (element "span" (prop "className" "text-xs font-mono text-[#A6A9AE] font-semibold" ∷ [])
        (say "REST SPECIFICATION"))
      & (element "h1" (prop "className" "text-3xl font-serif font-bold text-[#EDE8DF]" ∷ [])
          (say "AWS S3 REST & SigV4 API"))
      & (element "p" (prop "className" "text-xs font-mono text-[#8B8B8F]" ∷ []) (
          say
            "Standard S3 endpoints compatible with AWS CLI, boto3, MinIO Client, and official AWS SDKs."))))
    & (element "div" (prop "className" "space-y-6 font-mono text-xs" ∷ []) (
        (element "div"
          (prop "className" "p-4 rounded-lg bg-[#19191C] border border-[#26262B] space-y-3" ∷ [])
          ((element "div" (prop "className" "flex items-center gap-2" ∷ []) (
              (element "span"
                (prop "className" "px-1.5 py-0.5 rounded bg-[#7A1F2B] text-[#EDE8DF] font-bold"
                  ∷ [])
                (say "PUT"))
              & (element "span" (prop "className" "text-[#EDE8DF] font-semibold" ∷ [])
                  (say "/{bucket}/{key}"))))
            & (element "p" (prop "className" "font-sans text-xs text-[#8B8B8F]" ∷ []) (
                say
                  "Uploads an object stream. Returns 200 OK with ETag (SHA-256 CAS manifest hash)."))
            & (element "CodeBlock"
                (prop "code" (
                    "curl -X PUT http://localhost:8080/my-bucket/video.mp4 \\\n  -H \"Authorization: AWS4-HMAC-SHA256 Credential=cw-access-key/...\" \\\n  -H \"x-amz-content-sha256: UNSIGNED-PAYLOAD\" \\\n  --data-binary @video.mp4")
                  ∷ prop "language" "bash"
                  ∷ [])
                nothing)))
        & (element "div"
            (prop "className" "p-4 rounded-lg bg-[#19191C] border border-[#26262B] space-y-3" ∷ [])
            ((element "div" (prop "className" "flex items-center gap-2" ∷ []) (
                (element "span"
                  (prop "className" "px-1.5 py-0.5 rounded bg-[#26262B] text-[#EDE8DF] font-bold"
                    ∷ [])
                  (say "GET"))
                & (element "span" (prop "className" "text-[#EDE8DF] font-semibold" ∷ [])
                    (say "/{bucket}/{key}"))))
              & (element "p" (prop "className" "font-sans text-xs text-[#8B8B8F]" ∷ [])
                  (say "Retrieves an object stream with parallel chunk reassembly."))
              & (element "CodeBlock"
                  (prop "code" (
                      "curl -X GET http://localhost:8080/my-bucket/video.mp4 \\\n  -H \"Authorization: AWS4-HMAC-SHA256 Credential=cw-access-key/...\" \\\n  --output video.mp4")
                    ∷ prop "language" "bash"
                    ∷ [])
                  nothing))))))

unfoldable pub go_sdk_article : Node String
go_sdk_article = element "article" (prop "className" "space-y-6" ∷ []) (
    (element "div" (prop "className" "border-b border-[#26262B] pb-4 space-y-1" ∷ []) (
      (element "span" (prop "className" "text-xs font-mono text-[#A6A9AE] font-semibold" ∷ [])
        (say "LIBRARIES"))
      & (element "h1" (prop "className" "text-3xl font-serif font-bold text-[#EDE8DF]" ∷ [])
          (say "Go Client SDK"))
      & (element "p" (prop "className" "text-xs font-mono text-[#8B8B8F]" ∷ []) (
          say
            "Programmatic Go API with automatic FastCDC client-side chunking, retries, and pooled keep-alive connections."))))
    & (element "div" (prop "className" "space-y-4 font-mono text-xs" ∷ []) (
        element "CodeBlock"
          (prop "code" (
              "package main\n\nimport (\n    \"context\"\n    \"fmt\"\n    \"os\"\n    \"github.com/jhanvi857/cloudweave/client\"\n)\n\nfunc main() {\n    ctx := context.Background()\n    \n    // Initialize CloudWeave client\n    c, err := client.New(client.Config{\n        Endpoint: \"http://localhost:8080\",\n        AccessKey: \"cw-root\",\n        SecretKey: \"cw-secret-key-123\",\n    })\n    if err != nil {\n        panic(err)\n    }\n\n    // Upload file with FastCDC & Quorum\n    f, _ := os.Open(\"photo.jpg\")\n    defer f.Close()\n\n    res, err := c.PutObject(ctx, \"media\", \"photo.jpg\", f)\n    if err != nil {\n        panic(err)\n    }\n    fmt.Printf(\"Uploaded: ETag=%s, Chunks=%d\\n\", res.ETag, res.ChunkCount)\n}")
            ∷ prop "language" "go"
            ∷ prop "filename" "main.go"
            ∷ [])
          nothing)))

unfoldable pub mtls_security_article : Node String
mtls_security_article = element "article" (prop "className" "space-y-6" ∷ []) (
    (element "div" (prop "className" "border-b border-[#26262B] pb-4 space-y-1" ∷ []) (
      (element "span" (prop "className" "text-xs font-mono text-[#A6A9AE] font-semibold" ∷ [])
        (say "OPERATIONS"))
      & (element "h1" (prop "className" "text-3xl font-serif font-bold text-[#EDE8DF]" ∷ [])
          (say "Mutual TLS (mTLS) & Zero-Trust"))
      & (element "p" (prop "className" "text-xs font-mono text-[#8B8B8F]" ∷ []) (
          say
            "Peer-to-peer authenticated transport ensuring all node-to-node chunk transfers are encrypted and verified."))))
    & (element "div" (prop "className" "space-y-4 font-mono text-xs" ∷ []) (
        (element "p" (prop "className" "font-sans text-xs text-[#8B8B8F] leading-relaxed" ∷ []) (
          say
            "All internal RPC and chunk replication streams between cluster nodes run over TLS 1.3 with mutual certificate verification. Persistent pooled connections prevent per-request TLS handshake latency overhead."))
        & (element "CodeBlock"
            (prop "code" (
                "// Start node with mTLS enabled\nnode --port 8080 \\\n  --tls-cert /etc/cloudweave/certs/node1.crt \\\n  --tls-key /etc/cloudweave/certs/node1.key \\\n  --tls-ca /etc/cloudweave/certs/cluster-ca.crt")
              ∷ prop "language" "bash"
              ∷ prop "filename" "Terminal"
              ∷ [])
            nothing))))
