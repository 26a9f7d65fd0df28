-- ===== src/Ui/CodeBlock/Literals.antt =====
-- Where the string literals of a line lie, as ui/CodeBlock.tsx looks for them, and its test whether
-- a place lies inside one.
use cloud_weave.Prelude.{
  ℕ, ◌+◌, ◌<◌, ◌≤◌, ◌⊎◌, inl, inr, true, false, none, some, List, [], ◌∷◌, length, ◌≡◌, refl, arith,
}
use cloud_weave.Ui.CodeBlock.Regex.{Text}
use cloud_weave.Ui.CodeBlock.Tokens.{index_of_from, is_inside_string, string_matches}

-- `Placed line from sms spans`: the literals occur one behind the other, each looked for from the end
-- of the one before, and take the places from the first to before the second number of their span.
pub data Placed (line : Text) : ℕ → List Text → List (ℕ × ℕ) → Type 0 where
  no_more : {from : ℕ} → Placed line from [] []
  found :
      {from : ℕ} {sm : Text} {sms : List Text} {spans : List (ℕ × ℕ)} (p : ℕ)
      → index_of_from from line sm ≡ some p
      → Placed line (p + length sm) sms spans
      → Placed line from (sm ∷ sms) ((p, p + length sm) ∷ spans)

-- The spans of the literals of a line.
abbrev pub Literals : Text → List (ℕ × ℕ) → Type 0
Literals line spans = Placed line 0 (string_matches (length line) none line) spans

-- Behind the first and before the end of some literal.
abbrev pub Inside : ℕ → List (ℕ × ℕ) → Type 0
Inside i [] = ⊥
Inside i ((p, q) ∷ spans) = ((p < i) × (i < q)) ⊎ Inside i spans

-- Not behind the first or not before the end of any literal.
abbrev pub Outside : ℕ → List (ℕ × ℕ) → Type 0
Outside i [] = Unit
Outside i ((p, q) ∷ spans) = ((i ≤ p) ⊎ (q ≤ i)) × Outside i spans

pub is_inside_string-Inside :
    {line : Text} {sms : List Text} {spans : List (ℕ × ℕ)} (i : ℕ) {from : ℕ}
    → Placed line from sms spans
    → Inside i spans
    → is_inside_string line i from sms ≡ true
unfolding is_inside_string
is_inside_string-Inside i no_more h = absurd h
is_inside_string-Inside i (found p e l) (inl h) = ground arith
is_inside_string-Inside i (found p e l) (inr h) = ground (arith, is_inside_string-Inside i l h)

pub is_inside_string-Outside :
    {line : Text} {sms : List Text} {spans : List (ℕ × ℕ)} (i : ℕ) {from : ℕ}
    → Placed line from sms spans
    → Outside i spans
    → is_inside_string line i from sms ≡ false
unfolding is_inside_string
is_inside_string-Outside i no_more h = refl
is_inside_string-Outside i (found p e l) h = ground (arith, is_inside_string-Outside i l h.1)
