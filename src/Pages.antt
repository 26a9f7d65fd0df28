-- ===== src/Pages.antt =====
-- The views that the pages of the site mount.
pub mod GetStarted
pub mod Docs
pub mod Quickstart
pub mod Experiments
pub mod Architecture
pub mod Landing
pub mod Benchmarks
