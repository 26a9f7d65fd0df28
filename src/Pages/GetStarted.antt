-- ===== src/Pages/GetStarted.antt =====
-- documentation/components/cta/GetStartedView.tsx: the choices of the configurator, the copy button
-- with its timer, and the compose file that is generated.
pub mod View
pub mod Config
mod Tests
use cloud_weave.Prelude.{
  ℕ, suc, ◌+◌, String, Bool, true, false, none, List, [], ◌∷◌, map, range, ◌==◌, if◌then◌else◌,
  show, cat, concat, join,
}
use cloud_weave.EventLoop.{World, change, set_timeout}
use cloud_weave.EventLoop.Clipboard.{Clipboard, write_text}

pub data ClusterSize : Type 0 where
  one_node three_node five_node : ClusterSize

pub data StorageMode : Type 0 where
  replication erasure : StorageMode

pub data SdkTab : Type 0 where
  aws_cli python go cweave : SdkTab

-- The hooks of the view, with the clipboard that it writes to.
pub record Setup : Type 0 where
  pub copied_one_liner : Bool
  pub cluster_size : ClusterSize
  pub storage_mode : StorageMode
  pub enable_mtls : Bool
  pub sdk_tab : SdkTab
  pub clipboard : Clipboard String

abbrev pub initial : Setup
initial = record {
  copied_one_liner = false;
  cluster_size = five_node;
  storage_mode = replication;
  enable_mtls = true;
  sdk_tab = aws_cli;
  clipboard = record { content = none; pending = [] };
}

pub data Event : Type 0 where
  copy_one_liner : Event
  set_cluster_size : ClusterSize → Event
  set_storage_mode : StorageMode → Event
  set_enable_mtls : Bool → Event
  set_sdk_tab : SdkTab → Event

pub data Task : Type 0 where
  uncopy : Task

unfoldable pub run : Task → Setup → Setup
run uncopy s = record s { copied_one_liner = false }

abbrev pub one_liner : String
one_liner =
    "docker run -d -p 9000:9000 -e CLOUDWEAVE_API_KEYS=\"master-secret-key=admin\" ghcr.io/jhanvi857/cloudweave:latest"

-- handleCopyOneLiner
unfoldable pub handle_copy_one_liner : World Setup Task → World Setup Task
handle_copy_one_liner w = set_timeout uncopy 2000 (
    change (λ s. record s { copied_one_liner = true; clipboard = write_text one_liner s.clipboard })
      w)

unfoldable pub handle : Event → World Setup Task → World Setup Task
unfolding handle_copy_one_liner
handle copy_one_liner w = handle_copy_one_liner w
handle (set_cluster_size size) w = change (λ s. record s { cluster_size = size }) w
handle (set_storage_mode mode) w = change (λ s. record s { storage_mode = mode }) w
handle (set_enable_mtls b) w = change (λ s. record s { enable_mtls = b }) w
handle (set_sdk_tab tab) w = change (λ s. record s { sdk_tab = tab }) w

abbrev pub is_replication : StorageMode → Bool
is_replication replication = true
is_replication erasure = false

-- What the template prints for a Boolean.
abbrev pub show_bool : Bool → String
show_bool true = "true"
show_bool false = "false"

unfoldable pub single_node : String
single_node =
    "version: '3.8'\nservices:\n  cloudweave:\n    image: ghcr.io/jhanvi857/cloudweave:latest\n    container_name: cloudweave-node\n    ports:\n      - \"9000:9000\"\n    environment:\n      - PORT=9000\n      - DATA_DIR=/data\n      - CLOUDWEAVE_API_KEYS=master-secret-key=admin\n    volumes:\n      - cw_data:/data\n    restart: unless-stopped\n\nvolumes:\n  cw_data:"

unfoldable pub peers : ℕ → String
peers node_count = join "," (
    map (λ i. concat ("http://node" ∷ show (i + 1) ∷ ":" ∷ show (9000 + i) ∷ []))
      (range node_count))

-- The lines of the service of index `i`.
unfoldable pub service : ℕ → StorageMode → Bool → ℕ → String
unfolding peers
service node_count mode mtls i = join "\n" (
    concat ("  node" ∷ show (i + 1) ∷ ":" ∷ [])
    ∷ "    image: ghcr.io/jhanvi857/cloudweave:latest"
    ∷ cat "    container_name: cloudweave-node" (show (i + 1))
    ∷ "    ports:"
    ∷ concat ("      - \"" ∷ show (9000 + i) ∷ ":" ∷ show (9000 + i) ∷ "\"" ∷ [])
    ∷ "    environment:"
    ∷ cat "      - PORT=" (show (9000 + i))
    ∷ cat "      - DATA_DIR=/data/node" (show (i + 1))
    ∷ cat "      - PEERS=" (peers node_count)
    ∷ cat "      - QUORUM_N=" (show (if node_count == 3 then 3 else 5))
    ∷ cat "      - QUORUM_W=" (show (if node_count == 3 then 2 else 3))
    ∷ cat "      - QUORUM_R=" (show (if node_count == 3 then 2 else 3))
    ∷ cat "      - MTLS_ENABLED=" (show_bool mtls)
    ∷ cat "      - STORAGE_ENGINE="
        (if is_replication mode then "cas_replication" else "reed_solomon_k4_m2")
    ∷ "      - CLOUDWEAVE_API_KEYS=master-secret-key=admin"
    ∷ "    volumes:"
    ∷ concat ("      - node" ∷ show (i + 1) ∷ "_data:/data/node" ∷ show (i + 1) ∷ [])
    ∷ "    restart: unless-stopped"
    ∷ [])

unfoldable pub cluster : ℕ → StorageMode → Bool → String
unfolding service
cluster node_count mode mtls = concat (
    "version: '3.8'\nservices:\n"
    ∷ join "\n\n" (map (service node_count mode mtls) (range node_count))
    ∷ "\n\nvolumes:\n"
    ∷ join "\n" (map (λ i. concat ("  node" ∷ show (i + 1) ∷ "_data:" ∷ [])) (range node_count))
    ∷ [])

-- generateCompose
unfoldable pub generate_compose : ClusterSize → StorageMode → Bool → String
unfolding single_node cluster
generate_compose one_node mode mtls = single_node
generate_compose three_node mode mtls = cluster 3 mode mtls
generate_compose five_node mode mtls = cluster 5 mode mtls

-- The environment variables that the node reads (cmd/node/main.go).
unfoldable pub node_variables : List String
node_variables =
    "CLOUDWEAVE_PORT" ∷ "CLOUDWEAVE_DATA" ∷ "CLOUDWEAVE_PEERS" ∷ "CLOUDWEAVE_WAL" ∷ "CLOUDWEAVE_N"
    ∷ "CLOUDWEAVE_W" ∷ "CLOUDWEAVE_R" ∷ "CLOUDWEAVE_API_KEYS" ∷ "CLOUDWEAVE_STORAGE_MODE"
    ∷ "CLOUDWEAVE_CHUNKER" ∷ "CLOUDWEAVE_K" ∷ "CLOUDWEAVE_M" ∷ "CLOUDWEAVE_TLS_CERT"
    ∷ "CLOUDWEAVE_TLS_KEY" ∷ "CLOUDWEAVE_TLS_CA" ∷ "CLOUDWEAVE_TLS_CLIENT_AUTH"
    ∷ "CLOUDWEAVE_TLS_SKIP_VERIFY" ∷ "CLOUDWEAVE_CLUSTER_SECRET" ∷ []
