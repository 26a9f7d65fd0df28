-- ===== src/Pages/Landing/Features.antt =====
-- documentation/components/landing/LandingPage.tsx: the features and the keyframes of the pipeline.
use cloud_weave.Prelude.{String, List, [], ◌∷◌}

pub record Feature : Type 0 where
  pub title : String
  pub desc : String
  pub icon : String

unfoldable pub features : List Feature
features =
    record {
      title = "FastCDC Chunking";
      desc =
          "Rolling Gear hash eliminates boundary-shift problems, preserving 80%+ duplicate blocks across file edits.";
      icon = "Layers";
    }
    ∷ record {
      title = "SHA-256 CAS & Dedup";
      desc =
          "Cryptographic hash identifies immutable content chunks, skipping disk writes for existing payloads.";
      icon = "Lock";
    }
    ∷ record {
      title = "Consistent Hash Ring";
      desc =
          "150 virtual tumblers per node balance keys evenly across 32-bit integer space with minimal remapping on changes.";
      icon = "Server";
    }
    ∷ record {
      title = "Dynamo Quorum (N/W/R)";
      desc =
          "Decentralized fan-out quorum writes and reads guarantee strong consistency without a bottleneck single master.";
      icon = "ShieldCheck";
    }
    ∷ record {
      title = "Reed-Solomon Erasure Coding";
      desc =
          "Cauchy matrix reconstruction (K=4, M=2) survives 2 dead nodes with only 1.5x storage overhead versus 3.0x replication.";
      icon = "Cpu";
    }
    ∷ record {
      title = "Self-Healing Anti-Entropy";
      desc =
          "300ms gossip heartbeat failure detection prompts repair workers to re-replicate under-replicated chunks.";
      icon = "Zap";
    }
    ∷ record {
      title = "Mutual TLS Zero-Trust";
      desc =
          "Peer-to-peer transport with pooled persistent HTTP keep-alive connections eliminates TLS handshake penalties.";
      icon = "Lock";
    }
    ∷ record {
      title = "AWS S3 & SigV4 REST API";
      desc =
          "Full drop-in compatibility with standard AWS SDKs, boto3, and AWS CLI using HMAC-SHA256 signature verification.";
      icon = "HardDrive";
    }
    ∷ []

pub record Keyframe : Type 0 where
  pub step : String
  pub title : String
  pub desc : String

unfoldable pub pipeline_keyframes : List Keyframe
pipeline_keyframes =
    record {
      step = "01";
      title = "Ingestion & SigV4";
      desc =
          "Incoming S3 PUT requests are cryptographically verified and streamed into sync.Pool byte buffers.";
    }
    ∷ record {
      step = "02";
      title = "FastCDC Chunking";
      desc =
          "Gear rolling hash identifies dynamic boundary cuts to produce 16 KB - 256 KB content chunks.";
    }
    ∷ record {
      step = "03";
      title = "32-Bit Ring Placement";
      desc =
          "SHA-256 CAS chunk IDs are mapped to target primary and replica tumbler nodes on the hash ring.";
    }
    ∷ record {
      step = "04";
      title = "Quorum & WAL Commit";
      desc =
          "Parallel fan-out collects W=2 fsync acknowledgments and atomically writes manifest to the WAL.";
    }
    ∷ []
