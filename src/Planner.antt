-- ===== src/Planner.antt =====
-- The read-only deployment planner: component/InferNex-Agent/internal/deploymentplan.
pub mod Quantity
pub mod Resources
pub mod Objects
pub mod Pods
pub mod Nodes
pub mod Quota
pub mod Listing
pub mod Placing
pub mod Validate
pub mod Generate
mod Examples
