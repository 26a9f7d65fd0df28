-- ===== src/Playground/Quorum/Overlap.antt =====
-- What the strong-consistency banner of QuorumVisualizer.tsx promises: "at least one replica will
-- overlap in both write and read quorums". A quorum is a choice among the n replicas, a Boolean for
-- each; the banner's test is proved to decide that any two quorums of the two sizes overlap.
use cloud_weave.Prelude.{
  ℕ, zero, suc, ◌+◌, ◌-◌, ◌≤◌, ◌<◌, Bool, true, false, ◌&&◌, List, [], ◌∷◌, ◌≡◌, ◌↔◌, refl, length,
  if◌then◌else◌, arith, ap,
}
use cloud_weave.Playground.Quorum.{Quorum, strong_consistency}

-- How many replicas a quorum has.
abbrev size : List Bool → ℕ
size [] = 0
size (b ∷ bs) = (if b then 1 else 0) + size bs

-- How many replicas are in both.
abbrev common : List Bool → List Bool → ℕ
common [] ys = 0
common (x ∷ xs) [] = 0
common (x ∷ xs) (y ∷ ys) = (if x && y then 1 else 0) + common xs ys

-- Of n replicas, any w that were written and any r that are read have one in common.
abbrev pub QuorumsOverlap : ℕ → ℕ → ℕ → Type 0
QuorumsOverlap n w r =
    (xs ys : List Bool)
    → length xs ≡ n
    → length ys ≡ n
    → size xs ≡ w
    → size ys ≡ r
    → 0 < common xs ys

size-le : (xs : List Bool) → size xs ≤ length xs
size-le [] = omega arith
size-le (x ∷ xs) = ground (arith, size-le xs)

pigeonhole :
    (xs ys : List Bool) → length xs ≡ length ys → size xs + size ys ≤ length xs + common xs ys
pigeonhole [] [] e = omega arith
pigeonhole [] (y ∷ ys) e = absurd (omega arith)
pigeonhole (x ∷ xs) [] e = absurd (omega arith)
pigeonhole (x ∷ xs) (y ∷ ys) e = ground (arith, pigeonhole xs ys)

-- `k` replicas at the front, and `k` replicas behind the first `m`.
abbrev front : ℕ → ℕ → List Bool
front zero zero = []
front zero (suc m) = false ∷ front zero m
front (suc k) zero = []
front (suc k) (suc m) = true ∷ front k m

abbrev behind : ℕ → ℕ → List Bool
behind m zero = []
behind zero (suc n) = true ∷ behind zero n
behind (suc m) (suc n) = false ∷ behind m n

length-front : (k n : ℕ) → k ≤ n → length (front k n) ≡ n
length-front zero zero h = refl
length-front zero (suc n) h = ap suc (length-front zero n (omega arith))
length-front (suc k) zero h = absurd (omega arith)
length-front (suc k) (suc n) h = ap suc (length-front k n (omega arith))

size-front : (k n : ℕ) → k ≤ n → size (front k n) ≡ k
size-front zero zero h = refl
size-front zero (suc n) h = omega (arith, size-front zero n (omega arith))
size-front (suc k) zero h = absurd (omega arith)
size-front (suc k) (suc n) h = omega (arith, size-front k n (omega arith))

length-behind : (m n : ℕ) → length (behind m n) ≡ n
length-behind zero zero = refl
length-behind (suc m) zero = refl
length-behind zero (suc n) = ap suc (length-behind zero n)
length-behind (suc m) (suc n) = ap suc (length-behind m n)

size-behind : (m n : ℕ) → size (behind m n) ≡ n - m
size-behind zero zero = omega arith
size-behind (suc m) zero = omega arith
size-behind zero (suc n) = omega (arith, size-behind zero n)
size-behind (suc m) (suc n) = omega (arith, size-behind m n)

common-front-behind : (k m n : ℕ) → k ≤ m → common (front k n) (behind m n) ≡ 0
common-front-behind zero zero zero h = refl
common-front-behind zero zero (suc n) h =
    omega (arith, common-front-behind zero zero n (omega arith))
common-front-behind zero (suc m) zero h = refl
common-front-behind zero (suc m) (suc n) h =
    omega (arith, common-front-behind zero m n (omega arith))
common-front-behind (suc k) zero n h = absurd (omega arith)
common-front-behind (suc k) (suc m) zero h = refl
common-front-behind (suc k) (suc m) (suc n) h =
    omega (arith, common-front-behind k m n (omega arith))

overlap_of_lt : (n w r : ℕ) → n < w + r → QuorumsOverlap n w r
overlap_of_lt n w r h xs ys lx ly sx sy = omega (arith, pigeonhole xs ys (omega arith))

lt_of_overlap : (n w r : ℕ) → w ≤ n → r ≤ n → QuorumsOverlap n w r → n < w + r
lt_of_overlap n w r hw hr all = grind (
  arith,
  all (front w n) (behind (n - r) n) (length-front w n hw) (length-behind (n - r) n)
      (size-front w n hw) (omega (arith, size-behind (n - r) n)),
  common-front-behind w (n - r) n,
)

-- Where W and R are at most N, the banner claims strong consistency exactly when every write
-- quorum of W replicas and every read quorum of R replicas have a replica in common.
pub strong_consistency_iff :
    (s : Quorum)
    → s.w ≤ s.n
    → s.r ≤ s.n
    → (strong_consistency s ≡ true) ↔ QuorumsOverlap s.n s.w s.r
unfolding strong_consistency
strong_consistency_iff s hw hr = (
  λ e. overlap_of_lt s.n s.w s.r (ground arith),
  λ all. ground (arith, lt_of_overlap s.n s.w s.r hw hr all),
)
