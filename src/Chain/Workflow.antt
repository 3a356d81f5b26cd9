-- ===== src/Chain/Workflow.antt =====
-- workflow.go: the configured workflow.
pub mod Checks
pub mod Ordered
pub mod Paths
pub mod Graph
pub mod Clone
pub mod Connected
