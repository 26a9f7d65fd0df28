-- ===== src/Ui/CodeBlock.antt =====
-- documentation/components/ui/CodeBlock.tsx, the syntax highlighter of the site, in parts: regular
-- expressions as JavaScript matches them, the expressions of the source, the tokenizer, what the
-- component shows, and the theorems.
pub mod Regex
pub mod Patterns
pub mod Tokens
pub mod Taken
pub mod Lossless
pub mod Literals
pub mod Comments
pub mod Widget
pub mod Shown
pub mod Copying
mod Tests
