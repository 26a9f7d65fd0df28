-- ===== src/Layout.antt =====
-- The frame of the site, documentation/components/layout.
pub mod Search
pub mod Navbar
