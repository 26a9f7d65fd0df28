-- ===== src/Pages/Benchmarks/Figures.antt =====
-- documentation/components/benchmarks/BenchmarksView.tsx: the figures of the three tables.
use cloud_weave.Prelude.{String, Bool, true, false, List, [], ◌∷◌}

pub record BenchmarkRow : Type 0 where
  pub test : String
  pub median : String
  pub range : String
  pub concurrency : String
  pub notes : String

unfoldable pub throughput_data : List BenchmarkRow
throughput_data =
    record {
      test = "Upload Throughput (2MB payload, N=3, W=2)";
      median = "151.61 MB/s";
      range = "92.25 – 214.38 MB/s";
      concurrency = "8 workers";
      notes = "Bounded sync.Pool chunk buffers, zero allocation hot path.";
    }
    ∷ record {
      test = "Download Throughput (2MB read, R=2)";
      median = "120.90 MB/s";
      range = "109.62 – 231.18 MB/s";
      concurrency = "8 workers";
      notes = "Streaming quorum reassembly across surviving replicas.";
    }
    ∷ record {
      test = "Large File Upload (100MB payload, N=3, W=2)";
      median = "142.78 MB/s";
      range = "128.98 – 149.62 MB/s";
      concurrency = "16 workers";
      notes = "Continuous FastCDC pipeline without staging to temp files.";
    }
    ∷ record {
      test = "Warm In-Memory Cache Read (64MB LRU)";
      median = "412.50 MB/s";
      range = "380.12 – 445.00 MB/s";
      concurrency = "32 workers";
      notes = "LRU RAM hit bypasses disk I/O with sub-millisecond p99.";
    }
    ∷ record {
      test = "Deduplicated Upload (Duplicate payload)";
      median = "485.20 MB/s";
      range = "460.00 – 510.00 MB/s";
      concurrency = "8 workers";
      notes = "SHA-256 CAS hit avoids all replica network and disk writes.";
    }
    ∷ []

pub record Comparison : Type 0 where
  pub engine : String
  pub language : String
  pub throughput : String
  pub p99_latency : String
  pub memory_under_load : String
  pub dedup_support : String
  pub fault_tolerance : String
  pub is_primary : Bool

unfoldable pub comparison_data : List Comparison
comparison_data =
    record {
      engine = "CloudWeave";
      language = "Go (Zero CGO)";
      throughput = "151.6 MB/s";
      p99_latency = "14.2 ms";
      memory_under_load = "120.6 MB";
      dedup_support = "FastCDC + CAS (Built-in)";
      fault_tolerance = "N/W/R Quorum + Reed-Solomon";
      is_primary = true;
    }
    ∷ record {
      engine = "MinIO (Standalone)";
      language = "Go";
      throughput = "138.4 MB/s";
      p99_latency = "18.9 ms";
      memory_under_load = "290.0 MB";
      dedup_support = "None (Requires external)";
      fault_tolerance = "Erasure Coding (K+M)";
      is_primary = false;
    }
    ∷ record {
      engine = "Ceph RGW";
      language = "C++";
      throughput = "118.2 MB/s";
      p99_latency = "34.5 ms";
      memory_under_load = "850.0 MB";
      dedup_support = "None on gateway";
      fault_tolerance = "CRUSH Map + CRUSH rules";
      is_primary = false;
    }
    ∷ record {
      engine = "SeaweedFS";
      language = "Go";
      throughput = "145.0 MB/s";
      p99_latency = "16.1 ms";
      memory_under_load = "210.0 MB";
      dedup_support = "Block-level only";
      fault_tolerance = "Master/Volume replication";
      is_primary = false;
    }
    ∷ []

pub record MemoryRow : Type 0 where
  pub concurrency : String
  pub transfer : String
  pub heap : String
  pub per_worker : String
  pub margin : String

unfoldable pub memory_stress_data : List MemoryRow
memory_stress_data =
    record {
      concurrency = "5 Streams (50 MB total)";
      transfer = "50 MB";
      heap = "32.50 MB";
      per_worker = "6.50 MB / stream";
      margin = "87.3% headroom (223.5 MB free)";
    }
    ∷ record {
      concurrency = "20 Streams (200 MB total)";
      transfer = "200 MB";
      heap = "120.61 MB";
      per_worker = "6.03 MB / stream";
      margin = "52.8% headroom (135.4 MB free)";
    }
    ∷ record {
      concurrency = "50 Streams (500 MB total)";
      transfer = "500 MB";
      heap = "240.74 MB";
      per_worker = "4.81 MB / stream";
      margin = "6.0% headroom (15.3 MB free)";
    }
    ∷ []
