-- ===== src/Canvas/Pipeline/Stages.antt =====
-- documentation/components/canvas/Pipeline3DScroll.tsx: the six stages of the pipeline.
use cloud_weave.Prelude.{ℕ, String, List, [], ◌∷◌}

pub record PipelineStage : Type 0 where
  pub id : ℕ
  pub name : String
  pub subtitle : String
  pub description : String
  pub details : List String
  pub code_file : String
  pub code_snippet : String

unfoldable pub s3_ingestion : PipelineStage
s3_ingestion = record {
  id = 1;
  name = "1. S3 REST Ingestion";
  subtitle = "SigV4 Key Verification & Byte Stream Buffer";
  description =
      "Incoming S3 PUT requests arrive at any gateway node. AWS Signature Version 4 HMAC-SHA256 headers are verified against cluster credentials before streaming into pooled sync.Pool memory buffers.";
  details =
      ("Zero-allocation sync.Pool byte buffers minimize GC pressure"
        ∷ "Bounded chunk ingestion streams at >150 MB/s per node"
        ∷ "Decentralized gateway: any node acts as coordinator" ∷ []);
  code_file = "internal/api/s3_handler.go";
  code_snippet =
      "// Verify AWS SigV4 Auth & Stream Payload\nfunc (h *Handler) PutObject(w http.ResponseWriter, r *http.Request) {\n    ctx := r.Context()\n    if err := auth.VerifySigV4(r, h.secretKey); err != nil {\n        http.Error(w, \"SignatureDoesNotMatch\", http.StatusForbidden)\n        return\n    }\n    \n    // Acquire zero-allocation buffer from pool\n    buf := h.bufferPool.Get().([]byte)\n    defer h.bufferPool.Put(buf)\n    \n    // Pass stream directly to FastCDC chunker\n    manifest, err := h.coordinator.IngestStream(ctx, r.Body, r.ContentLength)\n    if err != nil {\n        http.Error(w, err.Error(), http.StatusInternalServerError)\n        return\n    }\n    w.Header().Set(\"ETag\", manifest.ETag)\n    w.WriteHeader(http.StatusOK)\n}";
}

unfoldable pub cdc_chunking : PipelineStage
cdc_chunking = record {
  id = 2;
  name = "2. FastCDC Chunking";
  subtitle = "Gear Rolling Hash Boundary Cut Points";
  description =
      "CloudWeave applies the FastCDC algorithm using a 64-entry Gear rolling hash matrix. Byte-level boundary shifts in edited files only invalidate the edited chunk, leaving all surrounding chunks bit-for-bit identical.";
  details =
      ("Normalized chunk sizing: Min 16 KB, Avg 64 KB, Max 256 KB"
        ∷ "Gear rolling hash computes 32-bit finger marks in <2 ns/byte"
        ∷ "Eliminates 80%+ redundant storage on incremental modifications" ∷ []);
  code_file = "internal/chunk/fastcdc.go";
  code_snippet =
      "// FastCDC dynamic boundary chunker with Gear matrix\nfunc (c *Chunker) Split(data []byte) []Chunk {\n    var chunks []Chunk\n    n := len(data)\n    cursor := 0\n\n    for cursor < n {\n        remaining := n - cursor\n        if remaining <= MinChunkSize {\n            chunks = append(chunks, c.createChunk(data[cursor:]))\n            break\n        }\n        \n        // Fast-path rolling hash loop\n        fingerprint := uint32(0)\n        splitPoint := cursor + MinChunkSize\n        for splitPoint < cursor+MaxChunkSize && splitPoint < n {\n            fingerprint = (fingerprint << 1) + GearMatrix[data[splitPoint]]\n            if (fingerprint & MaskNormalized) == 0 {\n                break // Cut boundary found\n            }\n            splitPoint++\n        }\n        chunks = append(chunks, c.createChunk(data[cursor:splitPoint]))\n        cursor = splitPoint\n    }\n    return chunks\n}";
}

unfoldable pub cas_hashing : PipelineStage
cas_hashing = record {
  id = 3;
  name = "3. SHA-256 CAS & Dedup";
  subtitle = "Cryptographic Fingerprint & Deduplication Filter";
  description =
      "Each FastCDC chunk is hashed with SHA-256 to create its immutable Content-Addressed Storage (CAS) identifier. If a chunk hash already exists in the cluster manifest index, physical disk I/O is skipped.";
  details =
      ("Deterministic SHA-256 hex digest acts as global chunk ID"
        ∷ "In-memory chunk index checks existence in O(1) time"
        ∷ "Deduplicated uploads achieve >480 MB/s effective throughput" ∷ []);
  code_file = "internal/storage/cas.go";
  code_snippet =
      "// Compute CAS Key & verify in-memory deduplication index\nfunc (s *CASStore) IndexChunk(chunk []byte) (ChunkID, bool) {\n    hasher := sha256.New()\n    hasher.Write(chunk)\n    id := ChunkID(hex.EncodeToString(hasher.Sum(nil)))\n\n    s.mu.Lock()\n    defer s.mu.Unlock()\n\n    if entry, exists := s.index[id]; exists {\n        entry.RefCount++\n        return id, true // Deduplicated: 0 disk I/O\n    }\n\n    s.index[id] = &IndexEntry{RefCount: 1, Size: len(chunk)}\n    return id, false // New unique chunk to write\n}";
}

unfoldable pub ring_placement : PipelineStage
ring_placement = record {
  id = 4;
  name = "4. Consistent Hash Ring";
  subtitle = "150 Virtual Tumbler Nodes per Physical Machine";
  description =
      "Chunk IDs are hashed into a 32-bit circular key space. Each storage node owns 150 virtual nodes (vnodes) distributed across the ring to prevent hot spots. Binary search on the ring returns the primary node and successor replicas.";
  details =
      ("150 vnodes per physical host ensure <4% standard deviation load"
        ∷ "Adding/removing a node only remaps 1/N of total keys"
        ∷ "Murmur3 32-bit hashing for ultra-low latency routing lookup" ∷ []);
  code_file = "internal/ring/hash_ring.go";
  code_snippet =
      "// Lookup target primary node and N replicas on hash ring\nfunc (r *HashRing) GetNodes(chunkID string, count int) []Node {\n    r.mu.RLock()\n    defer r.mu.RUnlock()\n\n    val := r.hashFn([]byte(chunkID))\n    idx := sort.Search(len(r.vnodes), func(i int) bool {\n        return r.vnodes[i].Token >= val\n    })\n    if idx == len(r.vnodes) {\n        idx = 0\n    }\n\n    selected := make([]Node, 0, count)\n    seen := make(map[string]bool)\n\n    for len(selected) < count && len(seen) < len(r.physicalNodes) {\n        node := r.vnodes[idx].Node\n        if !seen[node.ID] {\n            seen[node.ID] = true\n            selected = append(selected, node)\n        }\n        idx = (idx + 1) % len(r.vnodes)\n    }\n    return selected\n}";
}

unfoldable pub quorum_replication : PipelineStage
quorum_replication = record {
  id = 5;
  name = "5. Quorum Replication (N/W/R)";
  subtitle = "Decentralized Dynamo Quorum with mTLS Transport";
  description =
      "The coordinator fans out the chunk to N=3 nodes concurrently over mutual TLS (mTLS) with connection pooling. The coordinator waits for W=2 fsync acknowledgments before marking the write successful.";
  details =
      ("Tunable consistency parameters: Default N=3, W=2, R=2"
        ∷ "Persistent HTTP/2 + mTLS keep-alive connections avoid TLS handshake overhead"
        ∷ "Asynchronous bounded worker pools prevent goroutine leaks" ∷ []);
  code_file = "internal/coordinator/quorum_write.go";
  code_snippet =
      "// Parallel write fanout with W=2 acknowledgment quorum\nfunc (c *Coordinator) WriteChunkQuorum(ctx context.Context, chunk Chunk, nodes []Node) error {\n    acks := make(chan error, len(nodes))\n    \n    for _, node := range nodes {\n        go func(target Node) {\n            client := c.pool.Get(target.Address)\n            err := client.PutChunk(ctx, chunk.ID, chunk.Data)\n            acks <- err\n        }(node)\n    }\n\n    successCount := 0\n    var lastErr error\n    for i := 0; i < len(nodes); i++ {\n        err := <-acks\n        if err == nil {\n            successCount++\n            if successCount >= c.W { // Quorum met\n                return nil\n            }\n        } else {\n            lastErr = err\n        }\n    }\n    return fmt.Errorf(\"quorum failed: %d/%d acks (last: %v)\", successCount, c.W, lastErr)\n}";
}

unfoldable pub wal_commit : PipelineStage
wal_commit = record {
  id = 6;
  name = "6. WAL & Vector Clock Seal";
  subtitle = "Synchronous Journal Manifest Durability";
  description =
      "Once all chunks satisfy quorum, the object manifest and vector clock are appended to the coordinator Write-Ahead Log (WAL) with an fsync flush. On restart, manifest state is deterministically restored from the WAL.";
  details =
      ("Vector clocks track causal order and resolve concurrent updates"
        ∷ "CRC32 checksummed binary WAL entries guarantee crash consistency"
        ∷ "Returns 200 OK + ETag to S3 client" ∷ []);
  code_file = "internal/metadata/wal.go";
  code_snippet =
      "// Append manifest commit to Write-Ahead Log\nfunc (w *WAL) AppendManifest(m *Manifest) error {\n    w.mu.Lock()\n    defer w.mu.Unlock()\n\n    payload, err := json.Marshal(m)\n    if err != nil {\n        return err\n    }\n\n    entry := WALEntry{\n        Type:      EntryTypePut,\n        Timestamp: time.Now().UnixNano(),\n        CRC:       crc32.ChecksumIEEE(payload),\n        Payload:   payload,\n    }\n\n    if err := binary.Write(w.file, binary.LittleEndian, &entry.Header); err != nil {\n        return err\n    }\n    if _, err := w.file.Write(payload); err != nil {\n        return err\n    }\n    return w.file.Sync()\n}";
}

unfoldable pub stages : List PipelineStage
unfolding s3_ingestion cdc_chunking cas_hashing ring_placement quorum_replication wal_commit
stages =
    s3_ingestion ∷ cdc_chunking ∷ cas_hashing ∷ ring_placement ∷ quorum_replication ∷ wal_commit
    ∷ []
