-- ===== src/Ui/CodeBlock/Widget.antt =====
-- The component of ui/CodeBlock.tsx: the lines of the code, the copy button with its timer, and what
-- is shown.
use text.Mathlib.TextBridge.{of_list}
use Prim.Native.Char.{Char, code}
use mathlib.Core.List.{reverse}
use cloud_weave.Prelude.{
  ℕ, ◌+◌, String, Bool, true, false, ◌&&◌, List, [], ◌∷◌, map, length, ◌==◌, if◌then◌else◌, show,
  cat,
}
use cloud_weave.Html.{Node, prop, num, on, nothing, say, element, ◌&◌, when, each_from}
use cloud_weave.EventLoop.{World, change, set_timeout}
use cloud_weave.EventLoop.Clipboard.{Clipboard, write_text}
use cloud_weave.Ui.CodeBlock.Regex.{Text, chars, is_space}
use cloud_weave.Ui.CodeBlock.Tokens.{
  Token, TokenType, comment, keyword, type, function, string, number, flag, operator, plain,
  starts_with, tokenize_line,
}

-- CodeBlockProps, with the defaults filled in.
pub record Props : Type 0 where
  pub source : Text
  pub language : Text
  pub filename : String
  pub show_line_numbers : Bool

-- The state of the component, with the clipboard that it writes to.
pub record Block : Type 0 where
  pub copied : Bool
  pub clipboard : Clipboard Text

pub data Event : Type 0 where
  copy : Event

-- The task of the timer, `setCopied(false)`.
pub data Task : Type 0 where
  uncopy : Task

unfoldable pub run : Task → Block → Block
run uncopy s = record s { copied = false }

-- handleCopy
unfoldable pub handle_copy : Props → World Block Task → World Block Task
handle_copy p w =
    set_timeout uncopy 2000
      (change (λ s. record s { copied = true; clipboard = write_text p.source s.clipboard }) w)

unfoldable pub drop_space : Text → Text
drop_space [] = []
drop_space (c ∷ s) = if is_space c then drop_space s else c ∷ s

-- `s.trim()`
unfoldable pub trim : Text → Text
unfolding drop_space
trim s = reverse (drop_space (reverse (drop_space s)))

abbrev pub put_front : Char → List Text → List Text
put_front c [] = (c ∷ []) ∷ []
put_front c (l ∷ ls) = (c ∷ l) ∷ ls

-- `s.split('\n')`
unfoldable pub split_lines : Text → List Text
split_lines [] = [] ∷ []
split_lines (c ∷ s) =
    let rest = split_lines s in if code c == 10 then [] ∷ rest else put_front c rest

unfoldable pub lines : Props → List Text
unfolding trim split_lines
lines p = split_lines (trim p.source)

unfoldable pub tokenized_lines : Props → List (List Token)
unfolding lines
tokenized_lines p = map (λ line. tokenize_line line p.language) (lines p)

abbrev is_text : Text → Text → Bool
is_text s t = starts_with s t && starts_with t s

-- TokenSpan
unfoldable pub token_span : Text → TokenType → Node Event
token_span t keyword =
    element "span" (prop "className" "text-[#F472B6] font-semibold" ∷ []) (say (of_list t))
token_span t type =
    element "span" (prop "className" "text-[#38BDF8] font-semibold" ∷ []) (say (of_list t))
token_span t function = element "span" (prop "className" "text-[#FACC15]" ∷ []) (say (of_list t))
token_span t string = element "span" (prop "className" "text-[#4ADE80]" ∷ []) (say (of_list t))
token_span t comment =
    element "span" (prop "className" "text-[#8B8B8F] italic" ∷ []) (say (of_list t))
token_span t number =
    element "span" (prop "className" "text-[#FB923C] font-semibold" ∷ []) (say (of_list t))
token_span t flag = element "span" (prop "className" "text-[#FB7185]" ∷ []) (say (of_list t))
token_span t operator = element "span" (prop "className" "text-[#A6A9AE]" ∷ []) (say (of_list t))
token_span t plain = element "span" (prop "className" "text-[#EDE8DF]" ∷ []) (say (of_list t))

-- One line of the code, with its index.
unfoldable pub line_view : Props → List Token → ℕ → Node Event
unfolding token_span
line_view p tokens line_idx =
    element "div" (num "key" line_idx ∷ prop "className" "table-row" ∷ []) (
      (when p.show_line_numbers (
        element "span"
          (prop "className"
              "table-cell select-none pr-4 text-right text-[#8B8B8F]/60 border-r border-[#26262B]"
            ∷ [])
          (say (show (line_idx + 1)))))
      & (element "span"
          (prop "className"
              (cat "table-cell whitespace-pre " ((if p.show_line_numbers then "pl-4" else "")))
            ∷ [])
          ((each_from 0 tokens (λ token tok_idx. token_span token.content token.kind))
            & (when ((length tokens) == 0) (say " ")))))

bar : Props → Block → Node Event
bar p s =
    element "div"
      (prop "className"
          "flex items-center justify-between px-4 py-2.5 border-b border-[#26262B] bg-[#000000]"
        ∷ [])
      ((element "div" (prop "className" "flex items-center space-x-2" ∷ []) (
          (element "div" (prop "className" "w-2.5 h-2.5 rounded-full bg-[#7A1F2B]" ∷ []) nothing)
          & (element "div" (prop "className" "w-2.5 h-2.5 rounded-full bg-[#26262B]" ∷ []) nothing)
          & (element "div" (prop "className" "w-2.5 h-2.5 rounded-full bg-[#34343A]" ∷ [])
              nothing)))
        & (element "div"
            (prop "className" "flex items-center gap-1.5 font-mono text-xs text-[#A6A9AE]" ∷ [])
            ((if is_text p.language (chars "go")
                then element "Code2" (prop "className" "w-3.5 h-3.5 text-[#38BDF8]" ∷ []) nothing
                else element "Terminal" (prop "className" "w-3.5 h-3.5 text-[#F472B6]" ∷ [])
                    nothing)
              & (element "span" (prop "className" "text-[#EDE8DF] font-semibold" ∷ [])
                  (say p.filename))
              & (element "span" (prop "className" "text-[#8B8B8F]" ∷ [])
                  ((say "(") & (say (of_list p.language)) & (say ")")))))
        & (element "button"
            (on "onClick" copy
              ∷ prop "className"
                  "flex items-center justify-center h-6 px-2.5 rounded bg-[#19191C] hover:bg-[#7A1F2B] text-[#EDE8DF] text-xs transition-colors border border-[#26262B] cursor-pointer"
              ∷ prop "title" "Copy code"
              ∷ [])
            (if s.copied
              then element "div"
                  (prop "className" "flex items-center gap-1 text-[#4ADE80] font-bold" ∷ [])
                  ((element "Check" (prop "className" "w-3 h-3 text-[#4ADE80]" ∷ []) nothing)
                    & (element "span" [] (say "Copied")))
              else element "div"
                  (prop "className" "flex items-center gap-1 text-[#8B8B8F] hover:text-[#EDE8DF]"
                    ∷ [])
                  ((element "Copy" (prop "className" "w-3 h-3" ∷ []) nothing)
                    & (element "span" [] (say "Copy"))))))

body : Props → Node Event
unfolding line_view tokenized_lines
body p =
    element "div"
      (prop "className" "p-4 font-mono text-xs leading-relaxed overflow-x-auto bg-[#000000]" ∷ [])
      (element "pre" (prop "className" "w-full" ∷ [])
        (element "code" [] (each_from 0 (tokenized_lines p) (line_view p))))

unfoldable pub view : Props → Block → Node Event
unfolding bar body
view p s =
    element "div"
      (prop "className"
          "my-4 rounded-xl border border-[#26262B] bg-[#19191C] overflow-hidden shadow-lg relative font-sans"
        ∷ [])
      ((bar p s) & (body p))
