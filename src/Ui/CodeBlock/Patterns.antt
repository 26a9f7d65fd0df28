-- ===== src/Ui/CodeBlock/Patterns.antt =====
-- The expressions of ui/CodeBlock.tsx: tokenRegex, the expression of a string literal, and the tests
-- by which a token is given its type.
use Prim.Native.Char.{Char}
use cloud_weave.Prelude.{Bool, not, ◌||◌, List, [], ◌∷◌}
use cloud_weave.Ui.CodeBlock.Regex.{
  Text, chars, one_of, between, is_digit, is_letter, is_word, is_space, is_char, Regex, cls,
  some_of, word, seq, alt, opt, bound, ahead, quoted,
}

-- `w|...`
abbrev pub any_word : Text → List Text → Regex
any_word w [] = word w
any_word w (v ∷ vs) = alt (word w) (any_word v vs)

-- `(?:w|...)` of a list that is not empty.
abbrev pub words : List Text → Regex
words [] = cls (λ c. Bool.false)
words (w ∷ ws) = any_word w ws

-- The words of the fifth alternative of tokenRegex.
abbrev pub keywords : List Text
keywords =
    chars "func"
    ∷ chars "package"
    ∷ chars "import"
    ∷ chars "type"
    ∷ chars "struct"
    ∷ chars "interface"
    ∷ chars "return"
    ∷ chars "if"
    ∷ chars "else"
    ∷ chars "for"
    ∷ chars "range"
    ∷ chars "var"
    ∷ chars "const"
    ∷ chars "make"
    ∷ chars "new"
    ∷ chars "len"
    ∷ chars "append"
    ∷ chars "panic"
    ∷ chars "defer"
    ∷ chars "go"
    ∷ chars "select"
    ∷ chars "case"
    ∷ chars "break"
    ∷ chars "continue"
    ∷ chars "default"
    ∷ chars "map"
    ∷ chars "chan"
    ∷ chars "nil"
    ∷ chars "true"
    ∷ chars "false"
    ∷ chars "def"
    ∷ chars "class"
    ∷ chars "with"
    ∷ chars "as"
    ∷ chars "from"
    ∷ chars "in"
    ∷ chars "is"
    ∷ chars "not"
    ∷ chars "and"
    ∷ chars "or"
    ∷ chars "docker"
    ∷ chars "curl"
    ∷ chars "aws"
    ∷ chars "git"
    ∷ chars "cd"
    ∷ chars "mkdir"
    ∷ chars "cweave"
    ∷ chars "export"
    ∷ chars "let"
    ∷ chars "const"
    ∷ chars "function"
    ∷ chars "interface"
    ∷ []

-- The words of its sixth alternative, which the test for a type repeats.
abbrev pub types : List Text
types =
    chars "string"
    ∷ chars "int"
    ∷ chars "int64"
    ∷ chars "uint"
    ∷ chars "uint32"
    ∷ chars "uint64"
    ∷ chars "uint8"
    ∷ chars "byte"
    ∷ chars "bool"
    ∷ chars "error"
    ∷ chars "any"
    ∷ chars "float64"
    ∷ chars "float32"
    ∷ chars "Chunk"
    ∷ chars "ChunkID"
    ∷ chars "Node"
    ∷ chars "Manifest"
    ∷ chars "WAL"
    ∷ chars "WALEntry"
    ∷ chars "DiskStore"
    ∷ chars "HashRing"
    ∷ chars "CASStore"
    ∷ chars "Handler"
    ∷ chars "Config"
    ∷ chars "Context"
    ∷ chars "Response"
    ∷ chars "Request"
    ∷ chars "ResponseWriter"
    ∷ chars "VectorClock"
    ∷ chars "ShardBlock"
    ∷ chars "IndexEntry"
    ∷ chars "Index"
    ∷ chars "Header"
    ∷ chars "State"
    ∷ []

-- The words of the test for a keyword.
abbrev pub tested_keywords : List Text
tested_keywords =
    chars "func"
    ∷ chars "package"
    ∷ chars "import"
    ∷ chars "type"
    ∷ chars "struct"
    ∷ chars "interface"
    ∷ chars "return"
    ∷ chars "if"
    ∷ chars "else"
    ∷ chars "for"
    ∷ chars "range"
    ∷ chars "var"
    ∷ chars "const"
    ∷ chars "make"
    ∷ chars "new"
    ∷ chars "len"
    ∷ chars "append"
    ∷ chars "panic"
    ∷ chars "defer"
    ∷ chars "go"
    ∷ chars "select"
    ∷ chars "case"
    ∷ chars "break"
    ∷ chars "continue"
    ∷ chars "default"
    ∷ chars "map"
    ∷ chars "chan"
    ∷ chars "nil"
    ∷ chars "true"
    ∷ chars "false"
    ∷ chars "def"
    ∷ chars "class"
    ∷ chars "with"
    ∷ chars "as"
    ∷ chars "from"
    ∷ chars "in"
    ∷ chars "is"
    ∷ chars "not"
    ∷ chars "and"
    ∷ chars "or"
    ∷ chars "docker"
    ∷ chars "curl"
    ∷ chars "aws"
    ∷ chars "git"
    ∷ chars "cd"
    ∷ chars "mkdir"
    ∷ chars "cweave"
    ∷ chars "export"
    ∷ chars "let"
    ∷ chars "const"
    ∷ chars "function"
    ∷ []

-- `[:=+\-*\/&|<>\^~%!,;.\(\)\[\]\{\}]`
unfoldable pub is_operator : Char → Bool
is_operator c = one_of (chars ":=+-*/&|<>^~%!,;.()[]{}") c

-- `[^\s...]`, neither white space nor an operator.
unfoldable pub is_other : Char → Bool
unfolding is_operator
is_other c = not (is_space c || is_operator c)

abbrev pub is_flag_char : Char → Bool
is_flag_char c = is_word c || is_char b'-' c

abbrev pub is_hex_digit : Char → Bool
is_hex_digit c = is_digit c || (between b'a' b'f' c || between b'A' b'F' c)

abbrev pub is_name_start : Char → Bool
is_name_start c = is_letter c || is_char b'_' c

-- `--?[a-zA-Z0-9_\-]+`
abbrev pub flag : Regex
flag = seq (word (chars "-")) (seq (opt (word (chars "-"))) (some_of is_flag_char))

-- `\b0x[0-9a-fA-F]+\b`
abbrev pub hex_number : Regex
hex_number = seq bound (seq (word (chars "0x")) (seq (some_of is_hex_digit) bound))

-- `(?:ms|s|ns|MB|GB|KB|%)`
abbrev pub unit : Regex
unit =
    words
      (chars "ms" ∷ chars "s" ∷ chars "ns" ∷ chars "MB" ∷ chars "GB" ∷ chars "KB" ∷ chars "%" ∷ [])

-- `\b\d+(?:\.\d+)?(?:ms|s|ns|MB|GB|KB|%)?\b`
abbrev pub decimal_number : Regex
decimal_number = seq bound (
    seq (some_of is_digit)
      (seq (opt (seq (word (chars ".")) (some_of is_digit))) (seq (opt unit) bound)))

-- `\b(?:...)\b`
abbrev pub whole : List Text → Regex
whole ws = seq bound (seq (words ws) bound)

-- `[a-zA-Z_][a-zA-Z0-9_]*`
abbrev pub name : Regex
name = seq (cls is_name_start) (opt (some_of is_word))

-- `\b[a-zA-Z_][a-zA-Z0-9_]*(?=\s*\()`
abbrev pub call : Regex
call = seq bound (seq name (ahead (seq (opt (some_of is_space)) (word (chars "(")))))

-- tokenRegex
unfoldable pub token_regex : Regex
token_regex = alt quoted (
    alt flag (
      alt hex_number (
        alt decimal_number (
          alt (whole keywords) (
            alt (whole types)
              (alt call (alt (cls is_operator) (alt (some_of is_other) (some_of is_space)))))))))
