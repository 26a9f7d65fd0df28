-- ===== src/Layout/Search/Items.antt =====
-- The items of documentation/components/layout/SearchModal.tsx.
use cloud_weave.Prelude.{String, List, [], ◌∷◌}

pub record SearchItem : Type 0 where
  pub id : String
  pub title : String
  pub category : String
  pub description : String
  pub icon : String

abbrev pub search_items : List SearchItem
search_items =
    record {
      id = "playground-overview";
      title = "Interactive Playground";
      category = "Playground";
      description = "Follow an object from S3 request to distributed storage";
      icon = "Activity";
    }
    ∷ record {
      id = "playground-upload";
      title = "Upload & Chunking Simulation";
      category = "Playground";
      description = "Watch video.mp4 stream into FastCDC variable chunks";
      icon = "Layers";
    }
    ∷ record {
      id = "playground-ring";
      title = "Consistent Hash Ring Visualizer";
      category = "Playground";
      description = "Explore 150 virtual nodes and deterministic key placement";
      icon = "Server";
    }
    ∷ record {
      id = "playground-quorum";
      title = "Quorum Calculator (N/W/R)";
      category = "Playground";
      description = "Tune W and R values and observe acknowledgment consensus";
      icon = "ShieldCheck";
    }
    ∷ record {
      id = "playground-failure";
      title = "Failure & Self-Healing Demo";
      category = "Playground";
      description = "Kill a storage node and watch automatic replica repair";
      icon = "Activity";
    }
    ∷ record {
      id = "playground-dedup";
      title = "FastCDC Deduplication Playground";
      category = "Playground";
      description = "Test rolling hash boundary shifts and physical storage savings";
      icon = "Layers";
    }
    ∷ record {
      id = "playground-ec";
      title = "Reed-Solomon Erasure Coding (K=4, M=2)";
      category = "Playground";
      description = "Fail 2 nodes and reconstruct original object from 4 surviving shards";
      icon = "Cpu";
    }
    ∷ record {
      id = "concept-fastcdc";
      title = "FastCDC Content-Defined Chunking";
      category = "Concepts";
      description = "Gear rolling hash, min 16KB, avg 64KB, max 256KB chunk boundaries";
      icon = "BookOpen";
    }
    ∷ record {
      id = "concept-cas";
      title = "Content-Addressable Storage (CAS)";
      category = "Concepts";
      description = "SHA-256 integrity, tamper-evidence, and natural deduplication";
      icon = "BookOpen";
    }
    ∷ record {
      id = "concept-consistent-hashing";
      title = "Consistent Hashing & 150 VNodes";
      category = "Concepts";
      description = "Minimal key migration on node join/leave, uniform load distribution";
      icon = "BookOpen";
    }
    ∷ record {
      id = "concept-quorum";
      title = "N / W / R Quorum Consensus";
      category = "Concepts";
      description = "Dynamo-style tunable durability vs availability tradeoffs";
      icon = "BookOpen";
    }
    ∷ record {
      id = "concept-replication";
      title = "Replication vs Erasure Coding";
      category = "Concepts";
      description = "3x replication storage cost vs 1.5x Reed-Solomon storage efficiency";
      icon = "BookOpen";
    }
    ∷ record {
      id = "concept-repair";
      title = "Heartbeat Failure Detection & Repair";
      category = "Concepts";
      description = "3-second timeout, anti-entropy sync, and worker pool healing";
      icon = "BookOpen";
    }
    ∷ record {
      id = "concept-wal";
      title = "Write-Ahead Log (WAL) & Durability";
      category = "Concepts";
      description = "Synchronous fsync disk durability before client acknowledgment";
      icon = "BookOpen";
    }
    ∷ record {
      id = "concept-vc";
      title = "Vector Clocks & Object Versioning";
      category = "Concepts";
      description = "Causal history tracking, concurrent branch detection, and ETag";
      icon = "BookOpen";
    }
    ∷ record {
      id = "arch-overview";
      title = "System Architecture Diagram";
      category = "Architecture";
      description = "Interactive end-to-end component flow with inspector drawer";
      icon = "Layers";
    }
    ∷ record {
      id = "internals-s3";
      title = "S3-Compatible HTTP API";
      category = "Internals";
      description = "PUT, GET, DELETE, HEAD, ListObjectsV2 compatibility";
      icon = "Terminal";
    }
    ∷ record {
      id = "internals-transport";
      title = "Transport Layer & Connection Pooling";
      category = "Internals";
      description = "Persistent HTTP keep-alives and mutual TLS (mTLS)";
      icon = "Server";
    }
    ∷ record {
      id = "benchmarks-empirical";
      title = "Empirical Benchmark Suite";
      category = "Benchmarks";
      description = "152 MB/s upload, 121 MB/s download, 485 MB/s deduplication";
      icon = "Activity";
    }
    ∷ record {
      id = "decisions-adr";
      title = "Architecture Decision Records (ADRs)";
      category = "Decisions";
      description = "Rationale behind Go, FastCDC, 150 vnodes, WAL, and in-memory metadata";
      icon = "BookOpen";
    }
    ∷ record {
      id = "quickstart-docker";
      title = "Quick Start with Docker & Compose";
      category = "Quickstart";
      description = "Spin up 5-node distributed cluster locally in seconds";
      icon = "Terminal";
    }
    ∷ record {
      id = "reference-cli";
      title = "cweave CLI & Go SDK Reference";
      category = "Reference";
      description = "Full command-line manual and native Go client library";
      icon = "Terminal";
    }
    ∷ []
