-- ===== src/Ui/CodeBlock/Shown.antt =====
-- What ui/CodeBlock.tsx shows of a source text, and its copy button.
use Prim.Native.Char.{Char, code}
use package.text.Mathlib.TextEquality.{Char-path}
use package.text.Mathlib.TextBridge.{of_list, of_list-++}
use package.text.Mathlib.TextLemmas.{append_assoc as text_assoc, append-nil as text_nil, nil-append}
use cloud_weave.Prelude.{
  ℕ, suc, String, Bool, true, false, List, [], ◌∷◌, ◌++◌, length, ◌==◌, if◌then◌else◌, ◌≡◌, ◌≢◌,
  refl, ap, sym, ◌∙◌, cat, All, arith, Bool-cases, inl, inr,
}
use cloud_weave.Html.{Node, say, when, texts, each_from}
use cloud_weave.Ui.CodeBlock.Regex.{Text}
use cloud_weave.Ui.CodeBlock.Tokens.{Token, tokenize_line, TokenType}
use cloud_weave.Ui.CodeBlock.Lossless.{joined, joined-tokenize_line}
use cloud_weave.Ui.CodeBlock.Widget.{
  Props, put_front, split_lines, trim, lines, line_view, token_span, Event,
}

abbrev pub newline : Char
newline = "\n"

-- The lines, joined by line ends.
abbrev pub unlines : List Text → Text
unlines [] = []
unlines (l ∷ []) = l
unlines (l ∷ m ∷ ls) = l ++ (newline ∷ unlines (m ∷ ls))

-- No line end in a line.
abbrev pub OneLine : Text → Type 0
OneLine l = All (λ c. code c ≢ 10) l

unlines-put_front : (c : Char) (ls : List Text) → unlines (put_front c ls) ≡ c ∷ unlines ls
unlines-put_front c [] = refl
unlines-put_front c (l ∷ []) = refl
unlines-put_front c (l ∷ m ∷ ls) = refl

split_lines-ne-nil : (s : Text) → split_lines s ≢ []
unfolding split_lines
split_lines-ne-nil [] = λ e. cc
split_lines-ne-nil (c ∷ s) = either (code c == 10) (split_lines s)
  where
    either : (b : Bool) (ls : List Text) → (if b then [] ∷ ls else put_front c ls) ≢ []
    either true ls = λ e. cc
    either false [] = λ e. cc
    either false (l ∷ ls) = λ e. cc

unlines-blank : (ls : List Text) → ls ≢ [] → unlines ([] ∷ ls) ≡ newline ∷ unlines ls
unlines-blank [] h = absurd (h refl)
unlines-blank (l ∷ ls) h = refl

unlines-split_lines : (s : Text) → unlines (split_lines s) ≡ s
unfolding split_lines
unlines-split_lines [] = refl
unlines-split_lines (c ∷ s) = elim (Bool-cases (code c == 10)) [
  | inl e ↦
      let same_char : c ≡ newline = Char-path c newline (ground arith) in
      rw e (
        unlines-blank (split_lines s) (split_lines-ne-nil s)
        ∙ (ap (λ x. newline ∷ x) (unlines-split_lines s) ∙ ap (λ d. d ∷ s) (sym same_char)))
  | inr e ↦ rw e (unlines-put_front c (split_lines s) ∙ ap (λ x. c ∷ x) (unlines-split_lines s))
]

put_front-OneLine :
    (c : Char) (ls : List Text) → code c ≢ 10 → All OneLine ls → All OneLine (put_front c ls)
put_front-OneLine c [] h a = ((h, tt), tt)
put_front-OneLine c (l ∷ ls) h a = ((h, a.0), a.1)

split_lines-OneLine : (s : Text) → All OneLine (split_lines s)
unfolding split_lines
split_lines-OneLine [] = (tt, tt)
split_lines-OneLine (c ∷ s) = elim (Bool-cases (code c == 10)) [
  | inl e ↦ rw e (tt, split_lines-OneLine s)
  | inr e ↦ rw e (put_front-OneLine c (split_lines s) (ground arith) (split_lines-OneLine s))
]

-- The lines of the component hold no line end, and joined by line ends they are the trimmed source.
pub lines-of_source : (p : Props) → (unlines (lines p) ≡ trim p.source) × All OneLine (lines p)
unfolding lines
lines-of_source p = (unlines-split_lines (trim p.source), split_lines-OneLine (trim p.source))

-- The text that a part of a page shows.
abbrev pub run_of_text : List String → String
run_of_text [] = ""
run_of_text (s ∷ ss) = cat s (run_of_text ss)

abbrev pub shown : {A : Type 0} → Node A → String
shown n = run_of_text (texts n)

run_of_text-append :
    (ss ts : List String) → run_of_text (ss ++ ts) ≡ cat (run_of_text ss) (run_of_text ts)
run_of_text-append [] ts = sym (nil-append (run_of_text ts))
run_of_text-append (s ∷ ss) ts =
    ap (λ x. cat s x) (run_of_text-append ss ts)
    ∙ sym (text_assoc s (run_of_text ss) (run_of_text ts))

texts-token_span : (t : Text) (k : TokenType) → texts (token_span t k) ≡ of_list t ∷ []
unfolding token_span
texts-token_span t k = ground arith

shown-tokens :
    (i : ℕ) (ts : List Token)
    → shown (each_from i ts (λ t k. token_span t.content t.kind)) ≡ of_list (joined ts)
shown-tokens i [] = refl
shown-tokens i (t ∷ ts) = rw (texts-token_span t.content t.kind) (
    ap (λ x. cat (of_list t.content) x) (shown-tokens (suc i) ts)
    ∙ sym (of_list-++ t.content (joined ts)))

-- The blank that stands for an empty line.
abbrev blank : List Token → Node Event
blank ts = when (length ts == 0) (say " ")

texts-blank : (t : Token) (ts : List Token) → texts (blank (t ∷ ts)) ≡ []
texts-blank t ts = ground arith

shown_line :
    (p : Props) (ts : List Token) (i : ℕ)
    → p.show_line_numbers ≡ false
    → joined ts ≢ []
    → shown (line_view p ts i) ≡ of_list (joined ts)
unfolding line_view
shown_line p [] i plain_lines h = absurd (h refl)
shown_line p (t ∷ ts) i plain_lines h =
    let spans = texts (each_from 0 (t ∷ ts) (λ t k. token_span t.content t.kind)) in
    rw plain_lines (
      run_of_text-append spans (texts (blank (t ∷ ts)))
      ∙ (ap (λ x. cat (run_of_text spans) (run_of_text x)) (texts-blank t ts)
          ∙ (text_nil _ ∙ shown-tokens 0 (t ∷ ts))))

-- Without line numbers, a line that is not blank is shown character for character, whatever
-- spans the highlighter cuts it into.
pub shown-line_view :
    (p : Props) (line : Text) (i : ℕ)
    → p.show_line_numbers ≡ false
    → line ≢ []
    → shown (line_view p (tokenize_line line p.language) i) ≡ of_list line
shown-line_view p line i plain_lines h =
    shown_line p (tokenize_line line p.language) i plain_lines
      (λ e. h (sym (joined-tokenize_line line p.language) ∙ e))
    ∙ ap of_list (joined-tokenize_line line p.language)
