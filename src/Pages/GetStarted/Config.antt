-- ===== src/Pages/GetStarted/Config.antt =====
-- GetStartedView.tsx: what the generated compose file sets, read back from its lines, and what of it the
-- node of cmd/node/main.go reads.
use cloud_weave.Prelude.{
  ℕ, ◌+◌, ◌*◌, ◌-◌, String, Bool, true, false, Option, none, some, any, List, [], ◌∷◌, ◌++◌, map,
  range, keep, drop, length, ◌≡◌, refl, all, leb, ◌&&◌, ◌==◌, if◌then◌else◌, show, cat,
}
use Prim.Native.Char.{code}
use cloud_weave.Ui.CodeBlock.Regex.{Text, chars}
use cloud_weave.Ui.CodeBlock.Tokens.{starts_with}
use cloud_weave.Ui.CodeBlock.Widget.{split_lines}
use cloud_weave.Playground.Quorum.{Quorum, strong_consistency}
use cloud_weave.Pages.GetStarted.{
  ClusterSize, one_node, three_node, five_node, StorageMode, replication, erasure, generate_compose,
  node_variables,
}

-- The settings of a name in a compose file: what follows the prefix on each line that starts with it.
abbrev pub settings : String → String → List Text
settings prefix file =
    map (drop (length (chars prefix)))
      (keep (λ l. starts_with l (chars prefix)) (split_lines (chars file)))

-- The number that a text of digits writes.
abbrev pub read_from : ℕ → Text → ℕ
read_from n [] = n
read_from n (c ∷ s) = read_from (10 * n + (code c - 48)) s

abbrev pub numbers : String → String → List ℕ
numbers prefix file = map (read_from 0) (settings prefix file)

abbrev pub size_of : ClusterSize → ℕ
size_of one_node = 1
size_of three_node = 3
size_of five_node = 5

-- How many services of the file have lines about the cluster: all of them, or none if there is one only.
abbrev pub clustered : ClusterSize → ℕ
clustered one_node = 0
clustered three_node = 3
clustered five_node = 5

abbrev pub repeat : ℕ → Text → List Text
repeat n t = map (λ i. t) (range n)

-- The addresses of services that are named by their data directories, at their ports.
abbrev pub addresses : List Text → List ℕ → Text
addresses [] ports = []
addresses (n ∷ []) (p ∷ ports) = chars "http://" ++ (n ++ chars (cat ":" (show p)))
addresses (n ∷ m ∷ names) (p ∷ ports) =
    chars "http://" ++ (n ++ (chars (cat ":" (show p)) ++ chars "," ++ addresses (m ∷ names) ports))
addresses (n ∷ names) [] = []

-- The quorums that the lines of the services name, as the quorum visualizer has them.
abbrev pub quorums : List ℕ → List ℕ → List ℕ → List Quorum
quorums (n ∷ ns) (w ∷ ws) (r ∷ rs) =
    record { w = w; r = r; n = n; failed_node = none } ∷ quorums ns ws rs
quorums _ _ _ = []

-- For every choice of options each service of a cluster in the generated file has lines QUORUM_N,
-- QUORUM_W and QUORUM_R with a quorum of which the quorum visualizer says that it is strongly
-- consistent, of as many replicas as there are services, and with W and R at most N. This is about the
-- text of the file: the node reads none of the three.
pub compose-quorums :
    (size : ClusterSize) (mode : StorageMode) (mtls : Bool)
    → let file = generate_compose size mode mtls in
      let given =
        quorums
          (numbers "      - QUORUM_N=" file)
          (numbers "      - QUORUM_W=" file)
          (numbers "      - QUORUM_R=" file) in
      (length given ≡ clustered size)
      × (all
            (λ q. strong_consistency q && ((q.n == size_of size) && (leb q.w q.n && leb q.r q.n)))
            given
          ≡ true)
unfolding generate_compose split_lines show strong_consistency
compose-quorums one_node mode mtls = (refl, refl)
compose-quorums three_node replication true = (refl, refl)
compose-quorums three_node replication false = (refl, refl)
compose-quorums three_node erasure true = (refl, refl)
compose-quorums three_node erasure false = (refl, refl)
compose-quorums five_node replication true = (refl, refl)
compose-quorums five_node replication false = (refl, refl)
compose-quorums five_node erasure true = (refl, refl)
compose-quorums five_node erasure false = (refl, refl)

-- The name in front of the equals sign of a line, if there is one.
abbrev pub name_of : Text → Option Text
name_of [] = none
name_of (c ∷ s) =
    let rest = name_of s in
    if code c == 61 then some [] else elim rest [ none ↦ none | some n ↦ some (c ∷ n) ]

-- The names that the environments of the services of a file set, in order.
abbrev pub names : List Text → List Text
names [] = []
names (l ∷ ls) = elim (name_of l) [ none ↦ names ls | some n ↦ n ∷ names ls ]

abbrev pub is_read : Text → Bool
is_read t = any (λ v. starts_with t (chars v) && starts_with (chars v) t) node_variables

-- Of all names that the environments in the generated file set, the node reads only that of the API
-- keys, once for each service, whatever is chosen: the ports, the peers, the quorum, the transport
-- security and the durability that the file sets are read by none.
pub settings_unread :
    (size : ClusterSize) (mode : StorageMode) (mtls : Bool)
    → let set = names (settings "      - " (generate_compose size mode mtls)) in
      (keep is_read set ≡ repeat (size_of size) (chars "CLOUDWEAVE_API_KEYS"))
      × (length set ≡ 3 * size_of size + 6 * clustered size)
unfolding generate_compose split_lines show node_variables
settings_unread one_node mode mtls = (refl, refl)
settings_unread three_node replication true = (refl, refl)
settings_unread three_node replication false = (refl, refl)
settings_unread three_node erasure true = (refl, refl)
settings_unread three_node erasure false = (refl, refl)
settings_unread five_node replication true = (refl, refl)
settings_unread five_node replication false = (refl, refl)
settings_unread five_node erasure true = (refl, refl)
settings_unread five_node erasure false = (refl, refl)
