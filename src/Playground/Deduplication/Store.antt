-- ===== src/Playground/Deduplication/Store.antt =====
-- DeduplicationPlayground.tsx: its figures against a content-addressed store of the uploaded chunks.
use cloud_weave.Prelude.{
  ℕ, ◌+◌, ◌-◌, ◌*◌, String, Bool, true, false, List, [], ◌∷◌, ◌≡◌, refl, ◌⊎◌, inl, inr, same, any,
  count_of, sum_of, not, if◌then◌else◌, ◌==◌, arith,
}
use cloud_weave.Html.{clicks, tag_count}
use cloud_weave.Playground.Deduplication.{
  Lab, initial, Event, second_upload, reset, update, reused_chunks, new_chunks, logical_mb,
  physical_mb, savings_pct,
}
use cloud_weave.Playground.Deduplication.View.{view}

-- A chunk of an upload: the hash of its content and its size in MB.
pub record Chunk : Type 0 where
  pub hash : String
  pub mb : ℕ

abbrev pub original : List Chunk
original =
    record { hash = "A"; mb = 12 }
    ∷ record { hash = "B"; mb = 18 }
    ∷ record { hash = "C"; mb = 9 }
    ∷ record { hash = "D"; mb = 21 }
    ∷ []

-- The file after the edit of a byte of chunk B.
abbrev pub edited : List Chunk
edited =
    record { hash = "A"; mb = 12 }
    ∷ record { hash = "B'"; mb = 18 }
    ∷ record { hash = "C"; mb = 9 }
    ∷ record { hash = "D"; mb = 21 }
    ∷ []

abbrev pub holds : List Chunk → Chunk → Bool
holds store c = any (λ d. same d.hash c.hash) store

-- A store that keeps one chunk for each hash.
abbrev pub put : List Chunk → List Chunk → List Chunk
put [] store = store
put (c ∷ cs) store = if holds store c then put cs store else put cs (c ∷ store)

-- What was in the store before the last upload of a state, and that upload.
abbrev pub before : Lab → List Chunk
before s = if s.upload_count == 1 then [] else put original []

abbrev pub last_upload : Lab → List Chunk
last_upload s = if s.upload_count == 1 then original else if s.has_edit then edited else original

abbrev pub uploaded_mb : Lab → ℕ
uploaded_mb s =
    (if s.upload_count == 1 then 0 else sum_of (λ c. c.mb) original)
    + sum_of (λ c. c.mb) (last_upload s)

-- The states that the handlers lead to.
pub data Reachable : Lab → Type 0 where
  start : Reachable initial
  event : {s : Lab} → Reachable s → (e : Event) → Reachable (update e s)

-- A state is one of three: one upload, a second one of the same file, or one of the edited file.
pub three_states :
    {s : Lab}
    → Reachable s
    → (s ≡ initial)
      ⊎ ((s ≡ record { upload_count = 2; has_edit = false })
          ⊎ (s ≡ record { upload_count = 2; has_edit = true }))
unfolding update
three_states start = inl refl
three_states (event r (second_upload true)) = inr (inr refl)
three_states (event r (second_upload false)) = inr (inl refl)
three_states (event r reset) = inl refl

-- In every reachable state the figures are those of a content-addressed store: the physical size
-- is the size of the distinct chunks of both uploads, the logical size the sum of the uploads, and
-- the chunks called reused and new are those of the last upload that the store did and did not
-- hold before it.
pub figures-Store :
    {s : Lab}
    → Reachable s
    → (physical_mb s ≡ sum_of (λ c. c.mb) (put (last_upload s) (before s)))
      × (logical_mb s ≡ uploaded_mb s)
      × (reused_chunks s ≡ count_of (holds (before s)) (last_upload s))
      × (new_chunks s ≡ count_of (λ c. not (holds (before s) c)) (last_upload s))
unfolding physical_mb logical_mb reused_chunks new_chunks
figures-Store {s} r = elim (three_states r) [
  | inl e ↦ rw e (refl, refl, refl, refl)
  | inr (inl e) ↦ rw e (refl, refl, refl, refl)
  | inr (inr e) ↦ rw e (refl, refl, refl, refl)
]

-- In every reachable state as many cards carry the tick of a reused chunk as the meter counts, and
-- the saving shown in percent is the part of the logical size that is not stored, without rounding.
pub ticks-reused :
    {s : Lab}
    → Reachable s
    → (tag_count "CheckCircle2" (view s) ≡ reused_chunks s)
      × (savings_pct s * logical_mb s ≡ 100 * (logical_mb s - physical_mb s))
unfolding view reused_chunks savings_pct logical_mb physical_mb
ticks-reused {s} r = elim (three_states r) [
  | inl e ↦ rw e (refl, refl)
  | inr (inl e) ↦ rw e (refl, refl)
  | inr (inr e) ↦ rw e (refl, refl)
]

-- A first upload can be followed by the same file or by the edited one; after a second upload the
-- lab can only be reset, and a reset after any sequence of clicks shows the initial state.
pub clicks-second :
    (s : Lab)
    → (clicks (view s) ≡ (
        if s.upload_count == 1 then second_upload false ∷ second_upload true ∷ [] else reset ∷ []))
      × (update reset s ≡ initial)
unfolding view update
clicks-second s = (ground arith, refl)
