-- ===== src/Ui/CodeBlock/Lossless.antt =====
-- The tokenizer of ui/CodeBlock.tsx loses nothing: every match takes a piece off the front of the
-- text, every alternative takes at least one character, and some alternative fits at every place.
use Prim.Native.Char.{Char}
use mathlib.Core.Path.{ap₂}
use cloud_weave.Prelude.{
  Option-cases, ℕ, zero, suc, ◌≤◌, Bool, true, false, Option, none, some, List, [], ◌∷◌, ◌++◌, map,
  ◌≡◌, ◌≢◌, refl, sym, ap, ◌∙◌, inl, inr, length, All, Bool-cases, arith, append_assoc, append-nil,
  length-append, take-append-drop,
}
use cloud_weave.Ui.CodeBlock.Regex.{
  Text, Regex, cls, some_of, alt, Match, matches, runs, cons_match, last_or, is_space,
  is_some_match,
}
use cloud_weave.Ui.CodeBlock.Patterns.{token_regex, is_operator, is_other}
use cloud_weave.Ui.CodeBlock.Tokens.{
  Token, exec, first_match, code_tokens, split_comment, tokenize_line, comment_tokens,
  comment_prefix, index_of, is_inside_string, string_matches,
}
use cloud_weave.Ui.CodeBlock.Taken.{Splits, Taking, matches-Splits, takes, matches-Taking}

some-append_right : (xs ys : List Match) → is_some_match ys ≡ true → is_some_match (xs ++ ys) ≡ true
some-append_right [] ys h = h
some-append_right (x ∷ xs) ys h = refl

some-append_left : (xs ys : List Match) → is_some_match xs ≡ true → is_some_match (xs ++ ys) ≡ true
some-append_left [] ys h = cc
some-append_left (x ∷ xs) ys h = refl

some-alt_right :
    (a b : Regex) (prev : Option Char) (s : Text)
    → is_some_match (matches b prev s) ≡ true
    → is_some_match (matches (alt a b) prev s) ≡ true
unfolding matches
some-alt_right a b prev s h = some-append_right (matches a prev s) (matches b prev s) h

some-runs :
    (p : Char → Bool) (c : Char) (s : Text) → p c ≡ true → is_some_match (runs p (c ∷ s)) ≡ true
unfolding runs
some-runs p c s h = rw h (some-append_right (map (cons_match c) (runs p s)) ((c ∷ [], s) ∷ []) refl)

-- An operator, white space, or any other character: one of the last three alternatives fits.
some-last_three :
    (prev : Option Char) (c : Char) (s : Text)
    → is_some_match
        (matches (alt (cls is_operator) (alt (some_of is_other) (some_of is_space))) prev (c ∷ s))
      ≡ true
unfolding matches
some-last_three prev c s = elim (Bool-cases (is_operator c)) [
  | inl op ↦ rw op refl
  | inr no_op ↦ rw no_op (elim (Bool-cases (is_space c)) [
    | inl space ↦
        some-append_right (runs is_other (c ∷ s)) (runs is_space (c ∷ s))
          (some-runs is_space c s space)
    | inr no_space ↦
        some-append_left (runs is_other (c ∷ s)) (runs is_space (c ∷ s))
          (some-runs is_other c s (other no_op no_space))
  ])
]
  where
    other : is_operator c ≡ false → is_space c ≡ false → is_other c ≡ true
    other p q = unfold is_other in rw (p, q)

-- At every place that is not the end some alternative of tokenRegex matches.
some-token_regex :
    (prev : Option Char) (c : Char) (s : Text)
    → is_some_match (matches token_regex prev (c ∷ s)) ≡ true
unfolding token_regex
some-token_regex prev c s = some-alt_right _ _ prev _ (
    some-alt_right _ _ prev _ (
      some-alt_right _ _ prev _ (
        some-alt_right _ _ prev _ (
          some-alt_right _ _ prev _
            (some-alt_right _ _ prev _ (some-alt_right _ _ prev _ (some-last_three prev c s)))))))

-- A round of the loop: what it takes.
pub record Round (s : Text) (m : Match) : Type 0 where
  pub splits : Splits s m
  pub taking : Taking m

first_of_some :
    (s : Text) (ms : List Match)
    → is_some_match ms ≡ true
    → All (Splits s) ms
    → All Taking ms
    → (m : Match) × (first_match ms ≡ some m) × Round s m
first_of_some s [] h a b = cc
first_of_some s (m ∷ ms) h a b = (m, refl, record { splits = a.0; taking = b.0 })

takes-token_regex : takes token_regex ≡ true
unfolding token_regex
takes-token_regex = refl

pub exec-Round :
    (prev : Option Char) (c : Char) (s : Text)
    → (m : Match) × (exec token_regex prev (c ∷ s) ≡ some (m.0, last_or prev m.0, m.1))
      × Round (c ∷ s) m
unfolding exec
exec-Round prev c s =
    let (m, found, round) =
      first_of_some (c ∷ s) (matches token_regex prev (c ∷ s)) (some-token_regex prev c s)
        (matches-Splits token_regex prev (c ∷ s))
        (matches-Taking token_regex prev (c ∷ s) takes-token_regex) in
    (m, rw (found, exec), round)

-- The texts of the tokens, joined.
abbrev pub joined : List Token → Text
joined [] = []
joined (t ∷ ts) = t.content ++ joined ts

length-pos : (t : Text) → t ≢ [] → 1 ≤ length t
length-pos [] h = absurd (h refl)
length-pos (c ∷ t) h = omega arith

rest_shorter : (t r s : Text) → t ++ r ≡ s → t ≢ [] → suc (length r) ≤ length s
rest_shorter t r s e h = omega (arith, length-append t r, ap length e, length-pos t h)

nil_of_append : (t r : Text) → t ++ r ≡ [] → t ≡ []
nil_of_append [] r e = refl
nil_of_append (c ∷ t) r e = cc

none_at_end : (ms : List Match) → All (Splits []) ms → All Taking ms → first_match ms ≡ none
none_at_end [] a b = refl
none_at_end ((t, r) ∷ ms) a b = absurd (b.0 (nil_of_append t r a.0))

pub exec_at_end : (prev : Option Char) → exec token_regex prev [] ≡ none
unfolding exec
exec_at_end prev =
    let done =
      none_at_end (matches token_regex prev []) (matches-Splits token_regex prev [])
        (matches-Taking token_regex prev [] takes-token_regex) in
    rw (done, exec)

-- With a fuel of at least the length of the text the loop reads all of it.
pub joined-code_tokens :
    (f : ℕ) (prev : Option Char) (s : Text) → length s ≤ f → joined (code_tokens f prev s) ≡ s
unfolding code_tokens
joined-code_tokens zero prev [] h = refl
joined-code_tokens zero prev (c ∷ s) h = absurd (omega arith)
joined-code_tokens (suc f) prev [] h = rw (exec_at_end prev, code_tokens)
joined-code_tokens (suc f) prev (c ∷ s) h =
    let (m, found, round) = exec-Round prev c s in
    let shorter = rest_shorter m.0 m.1 (c ∷ s) round.splits round.taking in
    rw (found, code_tokens)
      (ap (λ x. m.0 ++ x) (joined-code_tokens f (last_or prev m.0) m.1 (omega arith))
        ∙ round.splits)

-- A split at a comment is a split of the line.
split_comment-append :
    (line prefix : Text) → (split_comment line prefix).0 ++ (split_comment line prefix).1 ≡ line
unfolding split_comment
split_comment-append line prefix = elim (Option-cases (index_of line prefix)) [
  | inl missing ↦ rw (missing, split_comment) (append-nil line)
  | inr (i, found) ↦
      rw (found, split_comment)
        (elim (Bool-cases (is_inside_string line i 0 (string_matches (length line) none line))) [
          | inl inside ↦ rw inside (append-nil line)
          | inr outside ↦ rw outside (take-append-drop i line)
        ])
]

joined-append : (ts us : List Token) → joined (ts ++ us) ≡ joined ts ++ joined us
joined-append [] us = refl
joined-append (t ∷ ts) us =
    ap (λ x. t.content ++ x) (joined-append ts us)
    ∙ sym (append_assoc t.content (joined ts) (joined us))

joined-comment_tokens : (s : Text) → joined (comment_tokens s) ≡ s
joined-comment_tokens [] = refl
joined-comment_tokens (c ∷ s) = append-nil (c ∷ s)

-- For every line and every language the texts of the tokens, joined in order, are the line: the
-- highlighter drops, repeats and reorders nothing.
pub joined-tokenize_line : (line lang : Text) → joined (tokenize_line line lang) ≡ line
unfolding tokenize_line
joined-tokenize_line line lang =
    let (before, after) = split_comment line (comment_prefix lang) in
    joined-append (code_tokens (length before) none before) (comment_tokens after)
    ∙ (ap₂ (λ x y. x ++ y) (joined-code_tokens (length before) none before (omega arith))
          (joined-comment_tokens after)
        ∙ split_comment-append line (comment_prefix lang))
