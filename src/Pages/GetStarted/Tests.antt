-- ===== src/Pages/GetStarted/Tests.antt =====
-- Instances of the theorems about GetStartedView.tsx for a cluster of five nodes with erasure coding.
use cloud_weave.Prelude.{true, length, keep, all, leb, ◌&&◌, ◌==◌, ◌≡◌, String}
use cloud_weave.Ui.CodeBlock.Regex.{chars}
use cloud_weave.Playground.Quorum.{strong_consistency}
use cloud_weave.Pages.GetStarted.{five_node, erasure, generate_compose}
use cloud_weave.Pages.GetStarted.Config.{
  settings, numbers, repeat, quorums, compose-quorums, settings_unread, names, is_read,
}

abbrev chosen : String
chosen = generate_compose five_node erasure true

compose-quorums_example :
    let given =
      quorums
        (numbers "      - QUORUM_N=" chosen)
        (numbers "      - QUORUM_W=" chosen)
        (numbers "      - QUORUM_R=" chosen) in
    (length given ≡ 5)
    × (all (λ q. strong_consistency q && ((q.n == 5) && (leb q.w q.n && leb q.r q.n))) given ≡ true)
compose-quorums_example = compose-quorums five_node erasure true

settings_unread_example :
    (keep is_read (names (settings "      - " chosen)) ≡ repeat 5 (chars "CLOUDWEAVE_API_KEYS"))
    × (length (names (settings "      - " chosen)) ≡ 45)
settings_unread_example = settings_unread five_node erasure true
