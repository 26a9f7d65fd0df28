-- ===== src/Canvas/Dedup/Tests.antt =====
-- An instance of the theorem about DedupCanvas.tsx after the second upload.
use cloud_weave.Prelude.{true, [], all, ◌≡◌}
use cloud_weave.Html.{texts}
use cloud_weave.Canvas.Dedup.{initial, upload_modified, handle, chunks_v2, proof_strip}
use cloud_weave.Canvas.Dedup.Sizes.{
  number, value_of, total, uploaded, stored_new, is_marked, shown-sizes,
}

shown-sizes_example :
    let shown = texts (proof_strip (handle upload_modified initial)) in
    (number (value_of "Logical Transferred:" shown)
      ≡ total (uploaded (handle upload_modified initial)))
    × (number (value_of "Physical Disk Used:" shown)
        ≡ total (stored_new [] (uploaded (handle upload_modified initial))))
    × (all (λ c. is_marked c) chunks_v2 ≡ true)
shown-sizes_example = shown-sizes (handle upload_modified initial)
