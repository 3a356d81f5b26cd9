-- ===== src/Chain.antt =====
-- rewrite/internal/chain: the records of a request, the ordered run, and the loop that carries it on.
pub mod Types
pub mod Refusals
pub mod Runs
pub mod Actions
pub mod Endings
pub mod Workflow
pub mod Offers
pub mod Instructions
pub mod Routers
pub mod Records
pub mod Run
