-- ===== src/Content.antt =====
-- Typed content: the payload contract of a block and the operations that a patch applies to blocks.
pub mod BlockTypes
pub mod Operations
pub mod Samples
mod Tests
