-- ===== src/Canvas/Dedup/Sizes.antt =====
-- DedupCanvas.tsx: the sizes that are shown, compared with those of the chunks.
use cloud_weave.Prelude.{
  ℕ, ◌+◌, ◌-◌, ◌*◌, String, Bool, true, false, any, all, not, List, [], ◌∷◌, ◌++◌, sum_of, same,
  if◌then◌else◌, ◌≡◌, refl,
}
use Prim.Native.Char.{code}
use cloud_weave.Html.{texts}
use cloud_weave.Ui.CodeBlock.Regex.{Text, chars, is_digit}
use cloud_weave.Canvas.Dedup.{Chunk, chunks_v1, chunks_v2, is_reused, proof_strip}

-- The number that a text starts with, after one already read.
abbrev pub number_from : ℕ → Text → ℕ
number_from n [] = n
number_from n (c ∷ s) =
    let more = number_from (10 * n + (code c - 48)) s in if is_digit c then more else n

abbrev pub number : String → ℕ
number s = number_from 0 (chars s)

-- The text that follows another.
abbrev pub value_of : String → List String → String
value_of label [] = ""
value_of label (s ∷ []) = ""
value_of label (s ∷ t ∷ ss) =
    let later = value_of label (t ∷ ss) in if same s label then t else later

abbrev pub uploaded : Bool → List Chunk
uploaded again = chunks_v1 ++ (if again then chunks_v2 else [])

-- What a store keyed by the hash keeps of chunks that arrive in turn, given the hashes that it has.
abbrev pub stored_new : List String → List Chunk → List Chunk
stored_new known [] = []
stored_new known (c ∷ cs) =
    let rest = stored_new (c.hash ∷ known) cs in
    let skipped = stored_new known cs in
    if any (λ h. same h c.hash) known then skipped else c ∷ rest

abbrev pub total : List Chunk → ℕ
total cs = sum_of (λ c. number c.size) cs

-- Whether a chunk is marked as reused just if the first object has one of its hash.
abbrev pub is_marked : Chunk → Bool
is_marked c =
    if is_reused c.status
    then any (λ d. same d.hash c.hash) chunks_v1
    else not (any (λ d. same d.hash c.hash) chunks_v1)

-- With the modified object uploaded or not: the size shown as transferred is the sum of the sizes of the
-- chunks uploaded, the size shown as used on disk the sum for those that a store keyed by the hash keeps,
-- and the chunks marked as reused are those whose hash the first object has.
pub shown-sizes :
    (again : Bool)
    → let shown = texts (proof_strip again) in
      (number (value_of "Logical Transferred:" shown) ≡ total (uploaded again))
      × (number (value_of "Physical Disk Used:" shown) ≡ total (stored_new [] (uploaded again)))
      × (all (λ c. is_marked c) chunks_v2 ≡ true)
unfolding proof_strip
shown-sizes true = (refl, refl, refl)
shown-sizes false = (refl, refl, refl)
