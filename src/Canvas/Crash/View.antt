-- ===== src/Canvas/Crash/View.antt =====
-- documentation/components/canvas/FailureRecovery3D.tsx: what it shows. The elements of the scene are
-- kept as elements, with arrays of numbers as texts; what RepairStreamBeam draws, frame by frame and
-- between the first and the fourth node, is left out.
use cloud_weave.Prelude.{String, Bool, true, false, [], ◌∷◌, length, if◌then◌else◌, show, cat}
use cloud_weave.Html.{Node, prop, num, flag, fields, on, nothing, say, element, ◌&◌, each}
use cloud_weave.Canvas.Crash.{
  Phase, Status, ClusterNode3d, Cluster, Event, kill_node, pick, reset, is_idle,
}

abbrev pub is_recovered : Phase → Bool
is_recovered Phase.recovered = true
is_recovered Phase.idle = false
is_recovered Phase.lost = false
is_recovered Phase.failed = false
is_recovered Phase.repairing = false

abbrev pub is_repair_phase : Phase → Bool
is_repair_phase Phase.repairing = true
is_repair_phase Phase.idle = false
is_repair_phase Phase.lost = false
is_repair_phase Phase.failed = false
is_repair_phase Phase.recovered = false

abbrev pub is_failed : Status → Bool
is_failed Status.failed = true
is_failed Status.timeout = true
is_failed Status.healthy = false
is_failed Status.repairing = false

abbrev pub is_repairing : Status → Bool
is_repairing Status.repairing = true
is_repairing Status.healthy = false
is_repairing Status.timeout = false
is_repairing Status.failed = false

unfoldable pub base_color : ClusterNode3d → String
base_color node =
    if is_failed node.status
    then "#7A1F2B"
    else if is_repairing node.status
    then "#EDE8DF"
    else "#A6A9AE"

-- The tag of the component RepairStreamBeam.
abbrev beam : Cluster → Node Event
beam s = element "RepairStreamBeam" (flag "active" (is_repair_phase s.phase) ∷ []) nothing

unfoldable pub cluster_node_mesh : ClusterNode3d → Node Event
unfolding base_color
cluster_node_mesh node = element "group" (prop "ref" "meshRef" ∷ prop "position" node.pos ∷ []) (
    (element "mesh" (on "onClick" (pick node.id) ∷ []) (
      (element "cylinderGeometry" (prop "args" "[0.5, 0.55, 0.6, 24]" ∷ []) nothing)
      & (element "meshStandardMaterial"
          (prop "color" (base_color node)
            ∷ prop "metalness" "0.85"
            ∷ prop "roughness" "0.2"
            ∷ prop "emissive" (
                if is_failed node.status
                then "#7A1F2B"
                else if is_repairing node.status
                then "#26262B"
                else "#19191C")
            ∷ prop "emissiveIntensity" (
                if is_failed node.status
                then "0.9"
                else if is_repairing node.status
                then "0.6"
                else "0.2")
            ∷ [])
          nothing)))
    & (element "mesh" (prop "position" "[0, 0.32, 0]" ∷ []) (
        (element "torusGeometry" (prop "args" "[0.52, 0.04, 16, 32]" ∷ []) nothing)
        & (element "meshStandardMaterial"
            (prop "color" (if is_failed node.status then "#7A1F2B" else "#26262B")
              ∷ prop "metalness" "0.9"
              ∷ [])
            nothing)))
    & (element "Html"
        (prop "position" "[0, 0.7, 0]" ∷ flag "center" true ∷ num "distanceFactor" 10 ∷ [])
        (element "button"
          (on "onClick" (pick node.id)
            ∷ prop "className" (
                cat
                  "px-2 py-1 rounded font-mono text-[9px] whitespace-nowrap border transition-all cursor-pointer shadow-md "
                  ((if is_failed node.status
                    then "bg-[#7A1F2B] text-[#EDE8DF] border-[#7A1F2B]"
                    else if is_repairing node.status
                    then "bg-[#19191C] text-[#EDE8DF] border-[#EDE8DF] ring-1 ring-[#7A1F2B]"
                    else "bg-[#19191C] text-[#EDE8DF] border-[#26262B] hover:border-[#A6A9AE]")))
            ∷ [])
          ((element "div" (prop "className" "font-bold flex items-center gap-1" ∷ []) (
              (element "span"
                (prop "className" (
                    cat "w-1.5 h-1.5 rounded-full "
                      ((if is_failed node.status then "bg-[#EDE8DF]" else "bg-[#7A1F2B]")))
                  ∷ [])
                nothing)
              & (element "span" [] (say node.name))))
            & (element "div" (prop "className" "text-[8px] text-[#8B8B8F]" ∷ []) (
                say (
                  if is_failed node.status
                  then "DEAD (kill -9)"
                  else cat (show (length node.chunks)) " chunks")))))))

unfoldable pub header : Cluster → Node Event
header s =
    element "div"
      (prop "className"
          "p-4 border-b border-[#26262B] flex flex-wrap items-center justify-between gap-3 font-mono text-xs bg-[#000000]"
        ∷ [])
      ((element "div" (prop "className" "flex items-center gap-2" ∷ []) (
          (element "Activity" (prop "className" "w-4 h-4 text-[#A6A9AE]" ∷ []) nothing)
          & (element "span" (prop "className" "font-bold text-[#EDE8DF]" ∷ [])
              (say "CLUSTER FAILURE & SELF-HEALING SIMULATOR"))))
        & (element "div" (prop "className" "flex items-center gap-2" ∷ []) (
            if is_idle s.phase
            then element "button"
                (on "onClick" (kill_node 3)
                  ∷ prop "className"
                      "flex items-center gap-1.5 px-3 py-1.5 rounded bg-[#7A1F2B] text-[#EDE8DF] font-semibold hover:bg-[#912735] transition-colors text-xs cursor-pointer shadow-xs"
                  ∷ [])
                ((element "AlertOctagon" (prop "className" "w-3.5 h-3.5" ∷ []) nothing)
                  & (element "span" [] (say "Simulate Node Kill (`kill -9`)")))
            else element "button"
                (on "onClick" reset
                  ∷ prop "className"
                      "flex items-center gap-1.5 px-3 py-1.5 rounded border border-[#26262B] text-[#8B8B8F] hover:text-[#EDE8DF] hover:border-[#34343A] transition-colors text-xs cursor-pointer"
                  ∷ [])
                ((element "RefreshCw" (prop "className" "w-3 h-3" ∷ []) nothing)
                  & (element "span" [] (say "Reset Cluster"))))))

unfoldable pub canvas : Cluster → Node Event
unfolding cluster_node_mesh
canvas s =
    element "div" (prop "className" "w-full h-[360px] sm:h-[400px] relative bg-[#000000]" ∷ []) (
      (element "Canvas" (fields "camera" (("position", "[0, 0, 5.2]") ∷ ("fov", "45") ∷ []) ∷ []) (
        (element "ambientLight" (prop "intensity" "0.6" ∷ []) nothing)
        & (element "directionalLight"
            (prop "position" "[5, 6, 5]" ∷ prop "intensity" "1.2" ∷ prop "color" "#EDE8DF" ∷ [])
            nothing)
        & (element "pointLight"
            (prop "position" "[0, 0, 0]"
              ∷ prop "intensity" "1.5"
              ∷ prop "color" "#7A1F2B"
              ∷ num "distance" 8
              ∷ [])
            nothing)
        & (element "group" [] ((each s.nodes cluster_node_mesh) & (beam s)))
        & (element "OrbitControls" (flag "enableZoom" false ∷ flag "enablePan" false ∷ [])
            nothing)))
      & (element "div"
          (prop "className"
              "absolute bottom-3 left-3 font-mono text-[10px] text-[#8B8B8F] bg-[#19191C]/80 px-2.5 py-1 rounded border border-[#26262B]"
            ∷ [])
          (say "Click any 3D node to simulate crash")))

unfoldable pub status_panel : Cluster → Node Event
status_panel s =
    element "div" (prop "className" "p-4 border-t border-[#26262B] bg-[#19191C] space-y-3" ∷ []) (
      (element "div"
        (prop "className"
            "flex items-center gap-2 p-2.5 rounded border border-[#26262B] bg-[#000000] font-mono text-xs text-[#EDE8DF]"
          ∷ [])
        ((element "span"
            (prop "className" (
                cat "w-2 h-2 rounded-full " (
                  (if is_idle s.phase
                    then "bg-[#EDE8DF]"
                    else if is_recovered s.phase
                    then "bg-[#EDE8DF]"
                    else "bg-[#7A1F2B]")))
              ∷ [])
            nothing)
          & (element "span" (prop "className" "font-semibold" ∷ []) (say s.status_message))))
      & (element "div"
          (prop "className" "grid grid-cols-2 sm:grid-cols-4 gap-2 font-mono text-xs" ∷ [])
          ((element "div" (prop "className" "p-2 rounded bg-[#000000] border border-[#26262B]" ∷ [])
              ((element "span" (prop "className" "text-[10px] text-[#8B8B8F] block" ∷ [])
                  (say "Quorum Health:"))
                & (element "span" (prop "className" "text-[#EDE8DF] font-bold" ∷ [])
                    (say "100% Available"))))
            & (element "div"
                (prop "className" "p-2 rounded bg-[#000000] border border-[#26262B]" ∷ [])
                ((element "span" (prop "className" "text-[10px] text-[#8B8B8F] block" ∷ [])
                    (say "Gossip Timeout:"))
                  & (element "span" (prop "className" "text-[#EDE8DF] font-semibold" ∷ [])
                      (say "300 ms"))))
            & (element "div"
                (prop "className" "p-2 rounded bg-[#000000] border border-[#26262B]" ∷ [])
                ((element "span" (prop "className" "text-[10px] text-[#8B8B8F] block" ∷ [])
                    (say "Repair Throughput:"))
                  & (element "span" (prop "className" "text-[#EDE8DF] font-semibold" ∷ [])
                      (say "1.42 GB/s"))))
            & (element "div"
                (prop "className" "p-2 rounded bg-[#000000] border border-[#26262B]" ∷ [])
                ((element "span" (prop "className" "text-[10px] text-[#8B8B8F] block" ∷ [])
                    (say "Recovery Duration:"))
                  & (element "span" (prop "className" "text-[#EDE8DF] font-bold" ∷ [])
                      (say "1.18 s")))))))

unfoldable pub view : Cluster → Node Event
unfolding header canvas status_panel
view s =
    element "div"
      (prop "className"
          "w-full flex flex-col bg-[#19191C] border border-[#26262B] rounded-xl overflow-hidden font-sans select-none"
        ∷ [])
      ((header s) & (canvas s) & (status_panel s))
