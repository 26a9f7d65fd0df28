-- ===== src/Playground.antt =====
-- The simulators of documentation/components/playground.
pub mod Quorum
pub mod Recovery
pub mod Erasure
pub mod Deduplication
pub mod Stepper
pub mod Chunks
pub mod Ring
pub mod Trace
pub mod Shell
