-- ===== src/Changes.antt =====
-- The journal of changes: component/InferNex-Agent/internal/changesafety.
pub mod Record
pub mod Memory
pub mod Files
pub mod Refinement
mod Examples
