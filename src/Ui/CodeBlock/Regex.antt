-- ===== src/Ui/CodeBlock/Regex.antt =====
-- The regular expressions that ui/CodeBlock.tsx is written with, as JavaScript matches them: a list
-- of all matches at a place, the preferred one first, so that backtracking is taking the next one. A
-- text is the list of its characters, and a match is the text matched with the text behind it.
use Prim.Native.Char.{Char, code}
use Prim.Native.String.{String}
use cloud_weave.Prelude.{
  ℕ, Bool, true, false, not, ◌&&◌, ◌||◌, Option, none, some, List, [], ◌∷◌, ◌++◌, map,
  if◌then◌else◌, ◌==◌, leb,
}

abbrev pub Text : Type 0
Text = List Char

-- The characters of a text of the source.
abbrev pub chars : String → Text
chars String.[] = []
chars (String.◌∷◌ c s) = c ∷ chars s

abbrev pub is_char : ℕ → Char → Bool
is_char k c = code c == k

-- One of the characters of a text.
abbrev pub one_of : Text → Char → Bool
one_of [] c = false
one_of (d ∷ ds) c = (code c == code d) || one_of ds c

abbrev pub between : ℕ → ℕ → Char → Bool
between lo hi c = leb lo (code c) && leb (code c) hi

-- `\d`, `\w` without the underscore, `\w`
abbrev pub is_digit : Char → Bool
is_digit c = between b'0' b'9' c

abbrev pub is_letter : Char → Bool
is_letter c = between b'a' b'z' c || between b'A' b'Z' c

abbrev pub is_word : Char → Bool
is_word c = (is_letter c || is_digit c) || is_char b'_' c

-- `\s`: white space and line ends.
abbrev pub is_space : Char → Bool
is_space c =
    (between 9 13 c || is_char 32 c)
    || ((is_char 160 c || is_char 0x1680 c)
        || (between 0x2000 0x200a c
            || (between 0x2028 0x2029 c
                || ((is_char 0x202f c || is_char 0x205f c)
                    || (is_char 0x3000 c || is_char 0xfeff c)))))

-- `.`: all but line ends.
abbrev pub is_dot : Char → Bool
is_dot c = not ((is_char 10 c || is_char 13 c) || between 0x2028 0x2029 c)

abbrev pub Match : Type 0
Match = Text × Text

pub data Regex : Type 0 where
  cls : (Char → Bool) → Regex  -- [...]
  some_of : (Char → Bool) → Regex  -- [...]+
  word : Text → Regex
  seq : Regex → Regex → Regex
  alt : Regex → Regex → Regex
  opt : Regex → Regex  -- (...)?
  bound : Regex  -- \b
  ahead : Regex → Regex  -- (?=...)
  quoted : Regex  -- (["'`])(?:(?=(\\?))\2.)*?\1

-- A match with `t` put in front of its text.
abbrev pub prepend : Text → Option Match → Option Match
prepend t none = none
prepend t (some (u, r)) = some (t ++ u, r)

-- The preferred match of an escaped body and the closing quote `q`: the shortest, a backslash being
-- taken together with the character behind it.
unfoldable pub close_quote : Char → Text → Option Match
close_quote q [] = none
close_quote q (c ∷ []) = if code c == code q then some (c ∷ [], []) else none
close_quote q (c ∷ d ∷ r) =
    let escaped = close_quote q r in
    let plain = close_quote q (d ∷ r) in
    if code c == code q
    then some (c ∷ [], d ∷ r)
    else if code c == b'\\'
    then if is_dot d then prepend (c ∷ d ∷ []) escaped else none
    else if is_dot c
    then prepend (c ∷ []) plain
    else none

abbrev pub is_quote : Char → Bool
is_quote c = one_of (chars "\"'`") c

-- `(["'`])(?:(?=(\\?))\2.)*?\1`
unfoldable pub match_quoted : Text → Option Match
unfolding close_quote
match_quoted [] = none
match_quoted (c ∷ s) = if is_quote c then prepend (c ∷ []) (close_quote c s) else none

-- The character before a place, once `t` has been matched there.
abbrev pub last_or : Option Char → Text → Option Char
last_or prev [] = prev
last_or prev (c ∷ t) = last_or (some c) t

abbrev pub is_word_at : Option Char → Bool
is_word_at none = false
is_word_at (some c) = is_word c

abbrev pub head_of : Text → Option Char
head_of [] = none
head_of (c ∷ s) = some c

-- `\b`
abbrev pub is_bound : Option Char → Text → Bool
is_bound prev s = if is_word_at prev then not (is_word_at (head_of s)) else is_word_at (head_of s)

abbrev pub cons_match : Char → Match → Match
cons_match c (t, r) = (c ∷ t, r)

-- `[...]+`, the longest run first.
unfoldable pub runs : (Char → Bool) → Text → List Match
runs p [] = []
runs p (c ∷ s) = if p c then map (cons_match c) (runs p s) ++ (c ∷ [], s) ∷ [] else []

unfoldable pub match_word : Text → Text → List Match
match_word [] s = ([], s) ∷ []
match_word (d ∷ w) [] = []
match_word (d ∷ w) (c ∷ s) = if code c == code d then map (cons_match c) (match_word w s) else []

abbrev pub here : Bool → Text → List Match
here test s = if test then ([], s) ∷ [] else []

abbrev pub is_some_match : List Match → Bool
is_some_match [] = false
is_some_match (m ∷ ms) = true

abbrev pub to_matches : Option Match → List Match
to_matches none = []
to_matches (some m) = m ∷ []

-- Each match of a first part, followed by the matches of the second behind it.
unfoldable pub chain : (Option Char → Text → List Match) → Option Char → List Match → List Match
chain f prev [] = []
chain f prev ((t, r) ∷ ms) = map (λ m. (t ++ m.0, m.1)) (f (last_or prev t) r) ++ chain f prev ms

-- All matches of an expression at a place, the preferred one first; `prev` is the character before
-- the place. A quoted literal stands last where the source uses it, so one match of it will do.
unfoldable pub matches : Regex → Option Char → Text → List Match
unfolding match_quoted runs match_word chain
matches (cls p) prev [] = []
matches (cls p) prev (c ∷ s) = if p c then (c ∷ [], s) ∷ [] else []
matches (some_of p) prev s = runs p s
matches (word w) prev s = match_word w s
matches (seq a b) prev s = chain (matches b) prev (matches a prev s)
matches (alt a b) prev s = matches a prev s ++ matches b prev s
matches (opt a) prev s = matches a prev s ++ ([], s) ∷ []
matches bound prev s = here (is_bound prev s) s
matches (ahead a) prev s = here (is_some_match (matches a prev s)) s
matches quoted prev s = to_matches (match_quoted s)

abbrev pub ends : List Match → Bool
ends [] = false
ends ((t, []) ∷ ms) = true
ends ((t, c ∷ r) ∷ ms) = ends ms

-- `/^...$/.test(s)`
unfoldable pub test : Regex → Text → Bool
unfolding matches
test a s = ends (matches a none s)
