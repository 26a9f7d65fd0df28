-- ===== src/Pages/Docs.antt =====
-- documentation/components/docs: the pages of the documentation.
pub mod Reader
pub mod Guides
pub mod Reference
