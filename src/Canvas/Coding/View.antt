-- ===== src/Canvas/Coding/View.antt =====
-- documentation/components/canvas/ErasureCoding3D.tsx: what it shows. The elements of the scene are
-- kept as elements, with arrays of numbers as texts; what ReconstructionBeams draws, frame by frame
-- and from the list of shards, is left out.
use cloud_weave.Prelude.{
  ◌-◌, String, Bool, true, false, not, ◌||◌, [], ◌∷◌, ltb, ◌==◌, if◌then◌else◌, show, cat,
}
use cloud_weave.Html.{Node, prop, num, flag, fields, on, nothing, say, element, ◌&◌, each, when}
use cloud_weave.Canvas.Coding.{
  Kind, data_shard, parity, ShardBlock, Coding, alive_count, failed_count, can_reconstruct, Event,
  toggle, reconstruct, reset,
}

abbrev pub is_data : Kind → Bool
is_data data_shard = true
is_data parity = false

unfoldable pub base_color : ShardBlock → String
base_color shard =
    if not shard.alive then "#34343A" else if is_data shard.kind then "#7A1F2B" else "#A6A9AE"

-- The tag of the component ReconstructionBeams.
abbrev beams : Coding → Node Event
beams s = element "ReconstructionBeams" (flag "isReconstructing" s.is_reconstructing ∷ []) nothing

unfoldable pub shard_cube : ShardBlock → Node Event
unfolding base_color
shard_cube shard =
    element "group" (prop "ref" "meshRef" ∷ prop "position" "[shard.xPos, 0, 0]" ∷ []) (
      (element "mesh" (on "onClick" (toggle shard.id) ∷ []) (
        (element "boxGeometry" (prop "args" "[0.75, 1.1, 0.5]" ∷ []) nothing)
        & (element "meshStandardMaterial"
            (prop "color" (base_color shard)
              ∷ prop "metalness" "0.8"
              ∷ prop "roughness" "0.25"
              ∷ prop "emissive" (
                  if not shard.alive
                  then "#000000"
                  else if is_data shard.kind
                  then "#421118"
                  else "#26262B")
              ∷ prop "emissiveIntensity" (if not shard.alive then "0.2" else "0.4")
              ∷ flag "transparent" (not shard.alive)
              ∷ prop "opacity" (if not shard.alive then "0.35" else "1.0")
              ∷ [])
            nothing)))
      & (element "mesh" [] (
          (element "boxGeometry" (prop "args" "[0.77, 1.12, 0.52]" ∷ []) nothing)
          & (element "meshStandardMaterial"
              (prop "color" (
                  if not shard.alive
                  then "#7A1F2B"
                  else if is_data shard.kind
                  then "#EDE8DF"
                  else "#A6A9AE")
                ∷ flag "wireframe" true
                ∷ flag "transparent" true
                ∷ prop "opacity" (if not shard.alive then "0.3" else "0.5")
                ∷ [])
              nothing)))
      & (element "Html"
          (prop "position" "[0, 0.9, 0]" ∷ flag "center" true ∷ num "distanceFactor" 10 ∷ [])
          (element "button"
            (on "onClick" (toggle shard.id)
              ∷ prop "className" (
                  cat
                    "px-2 py-1 rounded font-mono text-[9px] whitespace-nowrap border transition-all cursor-pointer shadow-md "
                    ((if not shard.alive
                      then "bg-[#19191C] text-[#8B8B8F] border-[#7A1F2B]"
                      else if is_data shard.kind
                      then "bg-[#19191C] text-[#EDE8DF] border-[#7A1F2B]"
                      else "bg-[#19191C] text-[#A6A9AE] border-[#26262B]")))
              ∷ [])
            ((element "div" (prop "className" "font-bold flex items-center gap-1" ∷ []) (
                (element "span" [] (say shard.name))
                & (element "span" [] (say (if shard.alive then "✓" else "✗")))))
              & (element "div" (prop "className" "text-[8px] text-[#8B8B8F]" ∷ [])
                  (say shard.node))))))

unfoldable pub header : Coding → Node Event
header s =
    element "div"
      (prop "className"
          "p-4 border-b border-[#26262B] flex flex-wrap items-center justify-between gap-3 font-mono text-xs bg-[#000000]"
        ∷ [])
      ((element "div" (prop "className" "flex items-center gap-2" ∷ []) (
          (element "Cpu" (prop "className" "w-4 h-4 text-[#A6A9AE]" ∷ []) nothing)
          & (element "span" (prop "className" "font-bold text-[#EDE8DF]" ∷ [])
              (say "REED-SOLOMON ERASURE CODING (K=4, M=2)"))))
        & (element "div" (prop "className" "flex items-center gap-2" ∷ []) (
            (when (ltb 0 (failed_count s.shards)) (
              element "button"
                (on "onClick" reconstruct
                  ∷ flag "disabled" ((not (can_reconstruct s.shards)) || s.is_reconstructing)
                  ∷ prop "className"
                      "flex items-center gap-1.5 px-3 py-1.5 rounded bg-[#7A1F2B] text-[#EDE8DF] font-semibold hover:bg-[#912735] disabled:opacity-40 disabled:cursor-not-allowed transition-colors text-xs cursor-pointer shadow-xs"
                  ∷ [])
                ((element "Zap" (prop "className" "w-3.5 h-3.5 fill-current" ∷ []) nothing)
                  & (element "span" [] (
                      say (
                        if s.is_reconstructing
                        then "Solving GF(2^8)..."
                        else "Reconstruct Shards"))))))
            & (element "button"
                (on "onClick" reset
                  ∷ prop "className"
                      "flex items-center gap-1.5 px-3 py-1.5 rounded border border-[#26262B] text-[#8B8B8F] hover:text-[#EDE8DF] hover:border-[#34343A] transition-colors text-xs cursor-pointer"
                  ∷ [])
                ((element "RefreshCw" (prop "className" "w-3 h-3" ∷ []) nothing)
                  & (element "span" [] (say "Reset")))))))

unfoldable pub canvas : Coding → Node Event
unfolding shard_cube
canvas s =
    element "div" (prop "className" "w-full h-[360px] sm:h-[400px] relative bg-[#000000]" ∷ []) (
      (element "Canvas" (fields "camera" (("position", "[0, 1.2, 5.0]") ∷ ("fov", "45") ∷ []) ∷ [])
        ((element "ambientLight" (prop "intensity" "0.5" ∷ []) nothing)
          & (element "directionalLight"
              (prop "position" "[4, 6, 4]" ∷ prop "intensity" "1.2" ∷ prop "color" "#EDE8DF" ∷ [])
              nothing)
          & (element "pointLight"
              (prop "position" "[0, 1, 0]"
                ∷ prop "intensity" "1.5"
                ∷ prop "color" "#7A1F2B"
                ∷ num "distance" 8
                ∷ [])
              nothing)
          & (element "group" (prop "position" "[0, 0, 0]" ∷ [])
              ((each s.shards shard_cube) & (beams s)))
          & (element "OrbitControls"
              (flag "enableZoom" false
                ∷ flag "enablePan" false
                ∷ prop "maxPolarAngle" "Math.PI / 2"
                ∷ prop "minPolarAngle" "Math.PI / 3"
                ∷ [])
              nothing)))
      & (element "div"
          (prop "className"
              "absolute bottom-3 left-3 font-mono text-[10px] text-[#8B8B8F] bg-[#19191C]/80 px-2.5 py-1 rounded border border-[#26262B]"
            ∷ [])
          (say "Click any 3D shard block to toggle failure")))

unfoldable pub status : Coding → Node Event
status s =
    element "div" (prop "className" "p-4 border-t border-[#26262B] bg-[#19191C] space-y-4" ∷ []) (
      (element "div"
        (prop "className"
            "flex flex-col sm:flex-row items-start sm:items-center justify-between gap-3 p-3 rounded-lg border border-[#26262B] bg-[#000000] font-mono text-xs"
          ∷ [])
        ((element "div" (prop "className" "flex items-center gap-2" ∷ []) (
            (element "div"
              (prop "className" (
                  cat "w-2.5 h-2.5 rounded-full " (
                    (if (alive_count s.shards) == 6
                      then "bg-[#EDE8DF]"
                      else if can_reconstruct s.shards
                      then "bg-[#A6A9AE]"
                      else "bg-[#7A1F2B]")))
                ∷ [])
              nothing)
            & (element "span" (prop "className" "font-bold text-[#EDE8DF]" ∷ []) (
                say (
                  if (alive_count s.shards) == 6
                  then "System Fully Healthy (6/6 Shards Online)"
                  else if can_reconstruct s.shards
                  then cat "Degraded · " (
                      cat (show (alive_count s.shards)) (
                        cat "/6 Online (Tolerates "
                          (cat (show ((alive_count s.shards) - 4)) " more failure)")))
                  else cat "CRITICAL DATA LOSS · "
                      (cat (show (alive_count s.shards)) "/6 Online (< K=4 Threshold)"))))))
          & (element "div" (prop "className" "text-[11px] text-[#8B8B8F]" ∷ []) (
              (say "Overhead: ")
              & (element "span" (prop "className" "text-[#EDE8DF] font-bold" ∷ []) (say "1.5x"))
              & (say " (vs 3.0x raw 3-way replication)")))))
      & (element "div"
          (prop "className" "grid grid-cols-1 md:grid-cols-3 gap-3 font-mono text-xs text-[#8B8B8F]"
            ∷ [])
          ((element "div"
              (prop "className" "p-2.5 rounded bg-[#000000] border border-[#26262B]" ∷ [])
              ((element "span" (prop "className" "text-[10px] text-[#8B8B8F] block" ∷ [])
                  (say "Matrix Type:"))
                & (element "span" (prop "className" "text-[#EDE8DF] font-semibold" ∷ [])
                    (say "Cauchy / Vandermonde GF(2^8)"))))
            & (element "div"
                (prop "className" "p-2.5 rounded bg-[#000000] border border-[#26262B]" ∷ [])
                ((element "span" (prop "className" "text-[10px] text-[#8B8B8F] block" ∷ [])
                    (say "Fault Tolerance:"))
                  & (element "span" (prop "className" "text-[#EDE8DF] font-semibold" ∷ [])
                      (say "M=2 Simultaneous Node Deaths"))))
            & (element "div"
                (prop "className" "p-2.5 rounded bg-[#000000] border border-[#26262B]" ∷ [])
                ((element "span" (prop "className" "text-[10px] text-[#8B8B8F] block" ∷ [])
                    (say "Reconstruction Cost:"))
                  & (element "span" (prop "className" "text-[#EDE8DF] font-semibold" ∷ [])
                      (say "Any K=4 out of N=6 Shards")))))))

unfoldable pub view : Coding → Node Event
unfolding header canvas status
view s =
    element "div"
      (prop "className"
          "w-full flex flex-col bg-[#19191C] border border-[#26262B] rounded-xl overflow-hidden font-sans select-none"
        ∷ [])
      ((header s) & (canvas s) & (status s))
