-- ===== src/Ui/CodeBlock/Taken.antt =====
-- What a match of a regular expression takes in ui/CodeBlock.tsx: a piece off the front of the text,
-- which is not empty where the expression cannot match the empty text.
use Prim.Native.Char.{Char}
use cloud_weave.Prelude.{
  Bool, true, false, ◌||◌, ◌&&◌, Option, none, some, List, [], ◌∷◌, ◌++◌, map, ◌≡◌, ◌≢◌, refl, ap,
  ◌∙◌, ◌⊎◌, inl, inr, All, All-append, arith, append_assoc,
}
use cloud_weave.Ui.CodeBlock.Regex.{
  Text, Regex, cls, some_of, word, seq, alt, opt, bound, ahead, quoted, Match, matches, chain, runs,
  match_word, match_quoted, close_quote, prepend, cons_match, here, to_matches, last_or,
}

-- A match of `s`: the text taken and the rest make up `s` again.
abbrev pub Splits : Text → Match → Type 0
Splits s m = m.0 ++ m.1 ≡ s

abbrev pub Taking : Match → Type 0
Taking m = m.0 ≢ []

All-map {ℓ κ} :
    {A B : Type ℓ} (P : A → Type κ) (Q : B → Type κ) (f : A → B) (xs : List A)
    → ((a : A) → P a → Q (f a))
    → All P xs
    → All Q (map f xs)
All-map P Q f [] h a = tt
All-map P Q f (x ∷ xs) h a = (h x a.0, All-map P Q f xs h a.1)

-- What holds of a match that an optional match may be.
abbrev Of : (Match → Type 0) → Option Match → Type 0
Of P none = Unit
Of P (some m) = P m

prepend-Splits :
    (t s : Text) (o : Option Match) → Of (Splits s) o → Of (Splits (t ++ s)) (prepend t o)
prepend-Splits t s none h = tt
prepend-Splits t s (some (u, r)) h = append_assoc t u r ∙ ap (λ x. t ++ x) h

close_quote-Splits : (q : Char) (s : Text) → Of (Splits s) (close_quote q s)
unfolding close_quote
close_quote-Splits q [] = tt
close_quote-Splits q (c ∷ []) = ground arith
close_quote-Splits q (c ∷ d ∷ r) = ground (
  arith,
  prepend-Splits (c ∷ d ∷ []) r (close_quote q r) (close_quote-Splits q r),
  prepend-Splits (c ∷ []) (d ∷ r) (close_quote q (d ∷ r)) (close_quote-Splits q (d ∷ r)),
)

match_quoted-Splits : (s : Text) → Of (Splits s) (match_quoted s)
unfolding match_quoted
match_quoted-Splits [] = tt
match_quoted-Splits (c ∷ s) =
    ground (arith, prepend-Splits (c ∷ []) s (close_quote c s) (close_quote-Splits c s))

cons_match-Splits :
    (c : Char) (s : Text) (ms : List Match)
    → All (Splits s) ms
    → All (Splits (c ∷ s)) (map (cons_match c) ms)
cons_match-Splits c s ms a =
    All-map (Splits s) (Splits (c ∷ s)) (cons_match c) ms (λ m e. ap (λ x. c ∷ x) e) a

runs-Splits : (p : Char → Bool) (s : Text) → All (Splits s) (runs p s)
unfolding runs
runs-Splits p [] = tt
runs-Splits p (c ∷ s) = ground (
  arith,
  All-append (Splits (c ∷ s)) (map (cons_match c) (runs p s)) ((c ∷ [], s) ∷ [])
      (cons_match-Splits c s (runs p s) (runs-Splits p s)) (refl, tt),
)

match_word-Splits : (w s : Text) → All (Splits s) (match_word w s)
unfolding match_word
match_word-Splits [] s = (refl, tt)
match_word-Splits (d ∷ w) [] = tt
match_word-Splits (d ∷ w) (c ∷ s) =
    ground (arith, cons_match-Splits c s (match_word w s) (match_word-Splits w s))

chain-Splits :
    (f : Option Char → Text → List Match)
    → ((prev : Option Char) (r : Text) → All (Splits r) (f prev r))
    → (prev : Option Char) (s : Text) (ms : List Match) → All (Splits s) ms
    → All (Splits s) (chain f prev ms)
unfolding chain
chain-Splits f h prev s [] a = tt
chain-Splits f h prev s ((t, r) ∷ ms) a =
    All-append (Splits s) _ _
      (All-map (Splits r) (Splits s) _ (f (last_or prev t) r)
        (λ m e. append_assoc t m.0 m.1 ∙ (ap (λ x. t ++ x) e ∙ a.0)) (h (last_or prev t) r))
      (chain-Splits f h prev s ms a.1)

here-Splits : (b : Bool) (s : Text) → All (Splits s) (here b s)
here-Splits true s = (refl, tt)
here-Splits false s = tt

to_matches-All : (P : Match → Type 0) (o : Option Match) → Of P o → All P (to_matches o)
to_matches-All P none h = tt
to_matches-All P (some m) h = (h, tt)

-- Whatever the expression and the place, each match takes a piece off the front of the text.
pub matches-Splits : (a : Regex) (prev : Option Char) (s : Text) → All (Splits s) (matches a prev s)
unfolding matches
matches-Splits (cls p) prev [] = tt
matches-Splits (cls p) prev (c ∷ s) = ground arith
matches-Splits (some_of p) prev s = runs-Splits p s
matches-Splits (word w) prev s = match_word-Splits w s
matches-Splits (seq a b) prev s =
    chain-Splits (matches b) (matches-Splits b) prev s (matches a prev s) (matches-Splits a prev s)
matches-Splits (alt a b) prev s =
    All-append (Splits s) (matches a prev s) (matches b prev s) (matches-Splits a prev s)
      (matches-Splits b prev s)
matches-Splits (opt a) prev s =
    All-append (Splits s) (matches a prev s) (([], s) ∷ []) (matches-Splits a prev s) (refl, tt)
matches-Splits bound prev s = here-Splits _ s
matches-Splits (ahead a) prev s = here-Splits _ s
matches-Splits quoted prev s = to_matches-All (Splits s) (match_quoted s) (match_quoted-Splits s)

-- An expression that cannot match the empty text, by its form.
abbrev pub takes : Regex → Bool
takes (cls p) = true
takes (some_of p) = true
takes (word []) = false
takes (word (c ∷ w)) = true
takes (seq a b) = takes a || takes b
takes (alt a b) = takes a && takes b
takes (opt a) = false
takes bound = false
takes (ahead a) = false
takes quoted = true

cons_match-Taking : (c : Char) (ms : List Match) → All Taking (map (cons_match c) ms)
cons_match-Taking c [] = tt
cons_match-Taking c (m ∷ ms) = (λ e. cc, cons_match-Taking c ms)

runs-Taking : (p : Char → Bool) (s : Text) → All Taking (runs p s)
unfolding runs
runs-Taking p [] = tt
runs-Taking p (c ∷ s) = ground (
  arith,
  All-append Taking (map (cons_match c) (runs p s)) ((c ∷ [], s) ∷ [])
      (cons_match-Taking c (runs p s)) (λ (e : c ∷ [] ≡ []). cc, tt),
)

prepend-Taking : (c : Char) (o : Option Match) → Of Taking (prepend (c ∷ []) o)
prepend-Taking c none = tt
prepend-Taking c (some m) = λ e. cc

match_quoted-Taking : (s : Text) → Of Taking (match_quoted s)
unfolding match_quoted
match_quoted-Taking [] = tt
match_quoted-Taking (c ∷ s) = ground (arith, prepend-Taking c (close_quote c s))

append-ne-nil_left : (t u : Text) → t ≢ [] → t ++ u ≢ []
append-ne-nil_left [] u h = absurd (h refl)
append-ne-nil_left (c ∷ t) u h = λ e. cc

append-ne-nil_right : (t u : Text) → u ≢ [] → t ++ u ≢ []
append-ne-nil_right [] u h = h
append-ne-nil_right (c ∷ t) u h = λ e. cc

All-always {ℓ κ} : {A : Type ℓ} (P : A → Type κ) (xs : List A) → ((a : A) → P a) → All P xs
All-always P [] h = tt
All-always P (x ∷ xs) h = (h x, All-always P xs h)

chain-Taking_first :
    (f : Option Char → Text → List Match) (prev : Option Char) (ms : List Match)
    → All Taking ms
    → All Taking (chain f prev ms)
unfolding chain
chain-Taking_first f prev [] a = tt
chain-Taking_first f prev ((t, r) ∷ ms) a =
    All-append Taking _ _
      (All-map (λ m. Unit {0}) Taking (λ m. (t ++ m.0, m.1)) (f (last_or prev t) r)
        (λ m u. append-ne-nil_left t m.0 a.0)
        (All-always (λ m. Unit {0}) (f (last_or prev t) r) (λ m. tt)))
      (chain-Taking_first f prev ms a.1)

chain-Taking_then :
    (f : Option Char → Text → List Match)
    → ((prev : Option Char) (r : Text) → All Taking (f prev r))
    → (prev : Option Char) (ms : List Match) → All Taking (chain f prev ms)
unfolding chain
chain-Taking_then f h prev [] = tt
chain-Taking_then f h prev ((t, r) ∷ ms) =
    All-append Taking _ _
      (All-map Taking Taking (λ m. (t ++ m.0, m.1)) (f (last_or prev t) r)
        (λ m e. append-ne-nil_right t m.0 e) (h (last_or prev t) r))
      (chain-Taking_then f h prev ms)

word-Taking : (d : Char) (w s : Text) → All Taking (match_word (d ∷ w) s)
unfolding match_word
word-Taking d w [] = tt
word-Taking d w (c ∷ s) = ground (arith, cons_match-Taking c (match_word w s))

or-cases : (a b : Bool) → a || b ≡ true → (a ≡ true) ⊎ (b ≡ true)
or-cases true b h = inl refl
or-cases false b h = inr h

-- An expression that cannot match the empty text takes at least one character.
pub matches-Taking :
    (a : Regex) (prev : Option Char) (s : Text) → takes a ≡ true → All Taking (matches a prev s)
unfolding matches
matches-Taking (cls p) prev [] h = tt
matches-Taking (cls p) prev (c ∷ s) h = ground arith
matches-Taking (some_of p) prev s h = runs-Taking p s
matches-Taking (word []) prev s h = cc
matches-Taking (word (c ∷ w)) prev s h = word-Taking c w s
matches-Taking (seq a b) prev s h = elim (or-cases (takes a) (takes b) h) [
  | inl first ↦
      chain-Taking_first (matches b) prev (matches a prev s) (matches-Taking a prev s first)
  | inr second ↦
      chain-Taking_then (matches b) (λ p r. matches-Taking b p r second) prev (matches a prev s)
]
matches-Taking (alt a b) prev s h =
    All-append Taking (matches a prev s) (matches b prev s) (matches-Taking a prev s (ground arith))
      (matches-Taking b prev s (ground arith))
matches-Taking (opt a) prev s h = cc
matches-Taking bound prev s h = cc
matches-Taking (ahead a) prev s h = cc
matches-Taking quoted prev s h = to_matches-All Taking (match_quoted s) (match_quoted-Taking s)
