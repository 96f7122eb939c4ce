-- ===== src/Supervisor.antt =====
-- The supervisor's scanner: component/InferNex-Agent/internal/supervisor.
pub mod Objects
pub mod Issues
pub mod Recovery
pub mod Summary
pub mod Scan
pub mod Setup
mod Examples
