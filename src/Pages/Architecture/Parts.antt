-- ===== src/Pages/Architecture/Parts.antt =====
-- documentation/components/architecture/ArchitectureMap.tsx: the parts of the storage system.
use cloud_weave.Prelude.{String, List, [], ◌∷◌}

pub record ArchComponent : Type 0 where
  pub id : String
  pub name : String
  pub category : String
  pub purpose : String
  pub inputs : String
  pub outputs : String
  pub go_package : String
  pub key_types : List String
  pub icon : String

unfoldable pub arch_components : List ArchComponent
arch_components =
    record {
      id = "clients";
      name = "Client Interfaces & SDKs";
      category = "Ingress Layer";
      purpose =
          "Provides S3 REST client compatibility for AWS CLI, boto3, Go SDK, and the cweave CLI tool.";
      inputs = "Raw file streams, HTTP S3 requests (PUT, GET, HEAD, DELETE)";
      outputs = "Authenticated HTTP/1.1 and HTTP/2 stream sockets";
      go_package = "client/ & cmd/cweave/";
      key_types = ("client.Client" ∷ "cweave.Config" ∷ []);
      icon = "Terminal";
    }
    ∷ record {
      id = "s3-api";
      name = "S3-Compatible API Router";
      category = "API Layer";
      purpose =
          "Translates Amazon S3 REST calls into CloudWeave internal coordinator calls with AWS SigV4 / bearer auth.";
      inputs = "HTTP PUT /bucket/key, GET /bucket/key";
      outputs = "Object payload stream & manifest query requests";
      go_package = "internal/api/";
      key_types = ("api.Server" ∷ "api.Handler" ∷ "api.AuthMiddleware" ∷ []);
      icon = "FileCode";
    }
    ∷ record {
      id = "chunker";
      name = "FastCDC Content-Defined Chunker";
      category = "Chunking & CAS";
      purpose =
          "Splits incoming byte streams into variable content-defined chunks using rolling Gear hash and computes SHA-256 CAS addresses.";
      inputs = "Raw io.Reader stream (1MB - multi-GB)";
      outputs = "[]chunk.Chunk (ID = sha256(data), Size, Payload)";
      go_package = "internal/chunk/";
      key_types = ("chunk.Chunk" ∷ "chunk.FastCDCChunker" ∷ "chunk.GearTable" ∷ []);
      icon = "Layers";
    }
    ∷ record {
      id = "ring";
      name = "Consistent Hash Ring (150 VNodes)";
      category = "Placement & Topology";
      purpose =
          "Maps SHA-256 chunk IDs to top N storage nodes in the 32-bit ring space, providing uniform load distribution.";
      inputs = "Chunk ID hash string (hex)";
      outputs = "Ordered list of N target physical node addresses";
      go_package = "internal/ring/";
      key_types = ("ring.HashRing" ∷ "ring.Node" ∷ "ring.VNode" ∷ []);
      icon = "Server";
    }
    ∷ record {
      id = "quorum";
      name = "N / W / R Quorum Coordinator";
      category = "Consensus & Fan-Out";
      purpose =
          "Dispatches chunks in parallel to N nodes; waits for W write acknowledgments or queries R nodes on read.";
      inputs = "[]chunk.Chunk, target nodes list, W threshold";
      outputs = "Quorum ACK status, write confirmation, latency metrics";
      go_package = "internal/coordinator/";
      key_types = ("coordinator.WriteSession" ∷ "coordinator.ReadSession" ∷ []);
      icon = "ShieldCheck";
    }
    ∷ record {
      id = "storage-nodes";
      name = "Storage Node & DiskStore Engine";
      category = "Data Plane";
      purpose =
          "Persists chunks to local content-addressed disk files ($DATA_DIR/chunks/xx/xx) with in-memory 64MB LRU cache.";
      inputs = "Chunk ID and binary byte slice";
      outputs = "fsync() acknowledgment or binary chunk stream";
      go_package = "internal/storage/";
      key_types = ("storage.DiskStore" ∷ "storage.LRUCache" ∷ "storage.ChunkStore" ∷ []);
      icon = "HardDrive";
    }
    ∷ record {
      id = "heartbeat";
      name = "Heartbeat Failure Detection";
      category = "Cluster Health";
      purpose =
          "Sends periodic 500ms heartbeat pings between mesh nodes. Marks dead nodes after 3-second consecutive timeout.";
      inputs = "Gossip ping /pong roundtrips";
      outputs = "Node status transitions: Healthy -> Suspicious -> Dead";
      go_package = "internal/cluster/";
      key_types = ("cluster.Membership" ∷ "cluster.HeartbeatLoop" ∷ []);
      icon = "Activity";
    }
    ∷ record {
      id = "repair";
      name = "Self-Healing Replica Repair Worker";
      category = "Anti-Entropy & Recovery";
      purpose =
          "Scans manifests on node failure, computes under-replicated chunks, and copies replicas to healthy nodes to restore N=3.";
      inputs = "Node failure event, metadata manifest table";
      outputs = "Restored chunk replicas on replacement nodes";
      go_package = "internal/replication/";
      key_types = ("replication.RepairWorker" ∷ "replication.Reconciler" ∷ []);
      icon = "Zap";
    }
    ∷ []
