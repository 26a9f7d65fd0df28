-- ===== src/Canvas.antt =====
-- The drawings of documentation/components/canvas.
pub mod Failure
pub mod Coding
pub mod Crash
pub mod System
pub mod Dedup
pub mod Pipeline
