-- ===== src/Ui/CodeBlock/Comments.antt =====
-- Which tokens of ui/CodeBlock.tsx are comments, and that no token is empty.
use Prim.Native.Char.{Char}
use cloud_weave.Prelude.{
  ℕ, zero, suc, Bool, true, false, ◌&&◌, Option, none, some, List, [], ◌∷◌, ◌++◌, ◌≡◌, ◌≢◌, refl,
  ap, ◌∙◌, ◌||◌, inl, inr, if◌then◌else◌, length, drop, Option-cases, arith,
}
use cloud_weave.Ui.CodeBlock.Regex.{Text, chars, head_of, test, cls}
use cloud_weave.Ui.CodeBlock.Patterns.{
  token_regex, hex_number, decimal_number, words, tested_keywords, types, name, is_operator,
}
use cloud_weave.Ui.CodeBlock.Literals.{
  Literals, Inside, Outside, is_inside_string-Inside, is_inside_string-Outside,
}
use cloud_weave.Ui.CodeBlock.Tokens.{
  Token, TokenType, comment, keyword, type, function, string, number, flag, operator, plain, exec,
  code_tokens, split_comment, tokenize_line, comment_tokens, comment_prefix, type_of, index_of,
  is_at, starts_with, is_inside_string, string_matches,
}

abbrev is_comment : TokenType → Bool
is_comment comment = true
is_comment keyword = false
is_comment type = false
is_comment function = false
is_comment string = false
is_comment number = false
is_comment flag = false
is_comment operator = false
is_comment plain = false

-- The texts of the tokens that are shown as comments.
abbrev pub comments : List Token → List Text
comments [] = []
comments (t ∷ ts) = if is_comment t.kind then t.content ∷ comments ts else comments ts

none_of_seven :
    (a b c d e f g : Bool)
    → is_comment (
        if a
        then string
        else if b
        then flag
        else if c
        then number
        else if d
        then keyword
        else if e
        then type
        else if f
        then function
        else if g
        then operator
        else plain)
      ≡ false
none_of_seven a b c d e f g = ground arith

type_of-not_comment : (t : Text) (next : Option Char) → is_comment (type_of t next) ≡ false
unfolding type_of
type_of-not_comment t next =
    none_of_seven ((is_at b'"' (head_of t) || is_at 39 (head_of t)) || is_at b'`' (head_of t))
      (is_at b'-' (head_of t)) (test hex_number t || test decimal_number t)
      (test (words tested_keywords) t) (test (words types) t) (test name t && is_at b'(' next)
      (test (cls is_operator) t)

comments-append : (ts us : List Token) → comments (ts ++ us) ≡ comments ts ++ comments us
comments-append [] us = refl
comments-append (t ∷ ts) us = ground (arith, comments-append ts us)

comments-code_tokens :
    (f : ℕ) (prev : Option Char) (s : Text) → comments (code_tokens f prev s) ≡ []
unfolding code_tokens
comments-code_tokens zero prev s = refl
comments-code_tokens (suc f) prev s = elim (Option-cases (exec token_regex prev s)) [
  | inl e ↦ rw (e, code_tokens) refl
  | inr ((t, p, r), e) ↦
      rw (e, code_tokens) (rw (type_of-not_comment t _) (comments-code_tokens f p r))
]

-- The place that `indexOf` finds starts with what was looked for.
index_of-starts_with :
    (s p : Text) (i : ℕ) → index_of s p ≡ some i → starts_with (drop i s) p ≡ true
unfolding index_of
index_of-starts_with [] p i e = ground arith
index_of-starts_with (c ∷ s) p zero e = ground arith
index_of-starts_with (c ∷ s) p (suc i) e = ground (arith, index_of-starts_with s p i)

-- What the three branches of the comment check make of a line.
comments_of_split :
    (line lang : Text)
    → comments (tokenize_line line lang)
      ≡ comments (comment_tokens (split_comment line (comment_prefix lang)).1)
unfolding tokenize_line
comments_of_split line lang =
    let (before, after) = split_comment line (comment_prefix lang) in
    comments-append (code_tokens (length before) none before) (comment_tokens after)
    ∙ ap (λ x. x ++ comments (comment_tokens after))
        (comments-code_tokens (length before) none before)

-- `is_masked line prefix i`: the code takes place `i` to lie inside a string literal.
abbrev pub is_masked : Text → ℕ → Bool
is_masked line i = is_inside_string line i 0 (string_matches (length line) none line)

split_none : (line p : Text) → index_of line p ≡ none → (split_comment line p).1 ≡ []
unfolding split_comment
split_none line p e = rw (e, split_comment) refl

split_outside :
    (line p : Text) (i : ℕ)
    → index_of line p ≡ some i
    → is_masked line i ≡ false
    → (split_comment line p).1 ≡ drop i line
unfolding split_comment
split_outside line p i e outside = rw (e, split_comment) (rw outside refl)

split_inside :
    (line p : Text) (i : ℕ)
    → index_of line p ≡ some i
    → is_masked line i ≡ true
    → (split_comment line p).1 ≡ []
unfolding split_comment
split_inside line p i e inside = rw (e, split_comment) (rw inside refl)

-- A line in which the comment prefix of its language does not occur has no comment token.
pub no_comment :
    (line lang : Text)
    → index_of line (comment_prefix lang) ≡ none
    → comments (tokenize_line line lang) ≡ []
no_comment line lang e =
    comments_of_split line lang
    ∙ ap (λ x. comments (comment_tokens x)) (split_none line (comment_prefix lang) e)

comments-comment_tokens : (s : Text) → s ≢ [] → comments (comment_tokens s) ≡ s ∷ []
comments-comment_tokens [] h = absurd (h refl)
comments-comment_tokens (c ∷ s) h = refl

starts_with-ne-nil : (s p : Text) → starts_with s p ≡ true → p ≢ [] → s ≢ []
starts_with-ne-nil [] [] e h = h
starts_with-ne-nil [] (d ∷ p) e h = cc
starts_with-ne-nil (c ∷ s) p e h = λ f. cc

comment_prefix-ne-nil : (lang : Text) → comment_prefix lang ≢ []
unfolding comment_prefix
comment_prefix-ne-nil lang = either _
  where
    either : (b : Bool) → (if b then chars "#" else chars "//") ≢ []
    either true = λ e. cc
    either false = λ e. cc

-- Where the first occurrence of the prefix lies at the start of or outside every string literal of the
-- line, the line has one comment token: the rest of the line from that place, which starts with the
-- prefix. The literals are the matches of the expression for them, each looked for behind the one before.
pub one_comment :
    (line lang : Text) (i : ℕ) {spans : List (ℕ × ℕ)}
    → index_of line (comment_prefix lang) ≡ some i
    → Literals line spans
    → Outside i spans
    → (comments (tokenize_line line lang) ≡ drop i line ∷ [])
      × (starts_with (drop i line) (comment_prefix lang) ≡ true)
one_comment line lang i e l outside =
    let begins = index_of-starts_with line (comment_prefix lang) i e in
    let some_text =
      starts_with-ne-nil (drop i line) (comment_prefix lang) begins (comment_prefix-ne-nil lang) in
    let rest =
      split_outside line (comment_prefix lang) i e (is_inside_string-Outside i l outside) in
    (
      comments_of_split line lang
          ∙ (ap (λ x. comments (comment_tokens x)) rest
              ∙ comments-comment_tokens (drop i line) some_text),
      begins,
    )

-- Where the first occurrence of the prefix lies behind the first and before the end of a string literal
-- of the line, the line has no comment token, even if a comment follows behind the literal. The literals
-- are the matches of the expression for them, each looked for behind the one before.
pub masked_comment :
    (line lang : Text) (i : ℕ) {spans : List (ℕ × ℕ)}
    → index_of line (comment_prefix lang) ≡ some i
    → Literals line spans
    → Inside i spans
    → comments (tokenize_line line lang) ≡ []
masked_comment line lang i e l inside =
    comments_of_split line lang
    ∙ ap (λ x. comments (comment_tokens x))
        (split_inside line (comment_prefix lang) i e (is_inside_string-Inside i l inside))
