-- ===== src/Ui.antt =====
-- The shared widgets of documentation/components/ui.
pub mod CodeBlock
pub mod Tabs
