-- ===== src/Ui/CodeBlock/Tokens.antt =====
-- tokenizeLine of ui/CodeBlock.tsx. An index is a count of characters.
use Prim.Native.Char.{Char, code}
use cloud_weave.Prelude.{
  ℕ, zero, suc, ◌+◌, ◌-◌, Bool, true, false, ◌&&◌, ◌||◌, Option, none, some, List, [], ◌∷◌, ◌++◌,
  if◌then◌else◌, ◌==◌, ltb, leb, length, take, drop, any,
}
use cloud_weave.Ui.CodeBlock.Regex.{
  Text, chars, head_of, last_or, Match, Regex, cls, quoted, matches, test,
}
use cloud_weave.Ui.CodeBlock.Patterns.{
  hex_number, decimal_number, name, tested_keywords, types, words, is_operator, token_regex,
}

pub data TokenType : Type 0 where
  keyword type function string comment number flag operator plain : TokenType

pub record Token : Type 0 where
  pub content : Text
  pub kind : TokenType

-- `t.startsWith(p)`
abbrev pub starts_with : Text → Text → Bool
starts_with t [] = true
starts_with [] (d ∷ p) = false
starts_with (c ∷ t) (d ∷ p) = (code c == code d) && starts_with t p

-- `s.indexOf(p)`, `none` standing for -1.
unfoldable pub index_of : Text → Text → Option ℕ
index_of [] p = if starts_with [] p then some 0 else none
index_of (c ∷ s) p =
    let later = index_of s p in
    if starts_with (c ∷ s) p then some 0 else elim later [ none ↦ none | some i ↦ some (suc i) ]

-- `s.indexOf(p, from)`
unfoldable pub index_of_from : ℕ → Text → Text → Option ℕ
unfolding index_of
index_of_from from s p = elim (index_of (drop from s) p) [ none ↦ none | some i ↦ some (from + i) ]

abbrev pub first_match : List Match → Option Match
first_match [] = none
first_match (m ∷ ms) = some m

-- The next match at or behind a place, with the character before the text that follows it.
unfoldable pub exec : Regex → Option Char → Text → Option (Text × (Option Char) × Text)
unfolding matches
exec a prev [] = elim (first_match (matches a prev [])) [
  | none ↦ none
  | some m ↦ some (m.0, last_or prev m.0, m.1)
]
exec a prev (c ∷ s) =
    let later = exec a (some c) s in
    elim (first_match (matches a prev (c ∷ s))) [
      | none ↦ later
      | some m ↦ some (m.0, last_or prev m.0, m.1)
    ]

abbrev pub is_at : ℕ → Option Char → Bool
is_at k none = false
is_at k (some c) = code c == k

-- The type of a token with the character behind it.
unfoldable pub type_of : Text → Option Char → TokenType
unfolding test
type_of text next =
    if (is_at b'"' (head_of text) || is_at 39 (head_of text)) || is_at b'`' (head_of text)
    then string
    else if is_at b'-' (head_of text)
    then flag
    else if test hex_number text || test decimal_number text
    then number
    else if test (words tested_keywords) text
    then keyword
    else if test (words types) text
    then type
    else if test name text && is_at b'(' next
    then function
    else if test (cls is_operator) text
    then operator
    else plain

abbrev pub to_token : Text → Text → Token
to_token text rest = record { content = text; kind = type_of text (head_of rest) }

-- The loop over tokenRegex.exec. A round takes at least one character, so a fuel of the length of
-- the text is enough.
unfoldable pub code_tokens : ℕ → Option Char → Text → List Token
unfolding exec type_of
code_tokens zero prev s = []
code_tokens (suc f) prev s = elim (exec token_regex prev s) [
  | none ↦ []
  | some (t, p, r) ↦ to_token t r ∷ code_tokens f p r
]

-- The loop behind `remaining.match(/.../g)`: the texts of the string literals.
unfoldable pub string_matches : ℕ → Option Char → Text → List Text
unfolding exec
string_matches zero prev s = []
string_matches (suc f) prev s = elim (exec quoted prev s) [
  | none ↦ []
  | some (t, p, r) ↦ t ∷ string_matches f p r
]

-- The loop that looks for a string literal around `comment_idx`. The place found is kept as one more
-- than its index, so that -1 is 0.
unfoldable pub is_inside_string : Text → ℕ → ℕ → List Text → Bool
unfolding index_of_from
is_inside_string remaining comment_idx current_pos [] = false
is_inside_string remaining comment_idx current_pos (sm ∷ sms) =
    let place : ℕ = elim (index_of_from current_pos remaining sm) [ none ↦ 0 | some p ↦ suc p ] in
    let later = is_inside_string remaining comment_idx (place + length sm - 1) sms in
    if leb place comment_idx && ltb (suc comment_idx) (place + length sm) then true else later

unfoldable pub comment_prefix : Text → Text
comment_prefix lang =
    if any (λ l. starts_with lang l && starts_with l lang)
      (chars "bash" ∷ chars "sh" ∷ chars "python" ∷ chars "py" ∷ [])
    then chars "#"
    else chars "//"

-- The code in front of a comment, and the comment.
unfoldable pub split_comment : Text → Text → Text × Text
unfolding index_of is_inside_string string_matches
split_comment remaining prefix = elim (index_of remaining prefix) [
  | none ↦ (remaining, [])
  | some i ↦
      if is_inside_string remaining i 0 (string_matches (length remaining) none remaining)
      then (remaining, [])
      else (take i remaining, drop i remaining)
]

abbrev pub comment_tokens : Text → List Token
comment_tokens [] = []
comment_tokens (c ∷ s) = record { content = c ∷ s; kind = comment } ∷ []

-- tokenizeLine(line, lang). With no code there is no round of the loop.
unfoldable pub tokenize_line : Text → Text → List Token
unfolding split_comment code_tokens comment_prefix
tokenize_line line lang =
    let (before, comment_str) = split_comment line (comment_prefix lang) in
    code_tokens (length before) none before ++ comment_tokens comment_str
