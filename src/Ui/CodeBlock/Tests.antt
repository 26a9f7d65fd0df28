-- ===== src/Ui/CodeBlock/Tests.antt =====
-- Instances of the theorems about CodeBlock.tsx at lines of Go.
use text.Mathlib.TextBridge.{of_list}
use cloud_weave.Prelude.{true, false, some, [], ◌∷◌, inl, inr, arith, ◌≡◌, refl}
use cloud_weave.EventLoop.{World, fire}
use cloud_weave.Ui.CodeBlock.Regex.{Text, chars}
use cloud_weave.Ui.CodeBlock.Tokens.{
  index_of, index_of_from, comment_prefix, starts_with, tokenize_line, string_matches,
}
use cloud_weave.Ui.CodeBlock.Lossless.{joined, joined-tokenize_line}
use cloud_weave.Ui.CodeBlock.Literals.{Literals, no_more, found}
use cloud_weave.Ui.CodeBlock.Comments.{comments, one_comment, masked_comment}
use cloud_weave.Ui.CodeBlock.Widget.{Props, Block, Task, run, handle_copy, line_view}
use cloud_weave.Ui.CodeBlock.Shown.{shown, shown-line_view}
use cloud_weave.EventLoop.Clipboard.{settle_text}
use cloud_weave.Ui.CodeBlock.Copying.{
  Reachable, start, click, settled, timer, IsHonest, Reachable-IsHonest, on_clipboard,
  copied_regardless,
}

abbrev go : Text
go = chars "go"

-- A comment behind a literal that holds the prefix.
abbrev fetch : Text
fetch = chars "get(\"a//b\") // done"

abbrev closing : Text
closing = chars "x = 1 // one"

joined-tokenize_line_example : joined (tokenize_line fetch go) ≡ fetch
joined-tokenize_line_example = joined-tokenize_line fetch go

-- The literal in front of the comment that follows it, and the one around the prefix.
abbrev labelled : Text
labelled = chars "f(\"a\") // b"

labelled-Literals : Literals labelled ((2, 5) ∷ [])
unfolding index_of_from string_matches
labelled-Literals = found 2 refl no_more

fetch-Literals : Literals fetch ((4, 10) ∷ [])
unfolding index_of_from string_matches
fetch-Literals = found 4 refl no_more

one_comment_example :
    (comments (tokenize_line labelled go) ≡ chars "// b" ∷ [])
    × (starts_with (chars "// b") (comment_prefix go) ≡ true)
unfolding index_of comment_prefix
one_comment_example = one_comment labelled go 7 refl labelled-Literals (inr (omega arith), tt)

masked_comment_example : comments (tokenize_line fetch go) ≡ []
unfolding index_of comment_prefix
masked_comment_example =
    masked_comment fetch go 6 refl fetch-Literals (inl (omega arith, omega arith))

abbrev snippet : Props
snippet = record {
  source = chars " a\nb ";
  language = go;
  filename = "main.go";
  show_line_numbers = false;
}

shown-line_view_example : shown (line_view snippet (tokenize_line closing go) 0) ≡ of_list closing
shown-line_view_example = shown-line_view snippet closing 0 refl (λ e. cc)

-- A block opened while the clipboard holds another text.
abbrev opened : World Block Task
opened = record {
  state = record { copied = false; clipboard = record { content = some closing; pending = [] } };
  now = 0;
  queue = [];
}

-- A copy that the browser refuses.
abbrev refused : World Block Task
refused = on_clipboard (settle_text false) (handle_copy snippet opened)

Reachable-IsHonest_example : IsHonest snippet (fire run (handle_copy snippet refused))
Reachable-IsHonest_example =
    Reachable-IsHonest snippet (timer (click (settled false (click (start 0 (some closing))))))

copied_regardless_example :
    Reachable snippet refused
    × (refused.state.copied ≡ true)
    × (refused.state.clipboard.pending ≡ [])
    × (refused.state.clipboard.content ≡ some closing)
copied_regardless_example = copied_regardless snippet false (start 0 (some closing)) refl
