-- ===== src/Chain/Run.antt =====
-- chain.go: Run.
pub mod Monad
pub mod Phases
pub mod Launch
pub mod Rules
pub mod Kept
pub mod WriteAhead
pub mod Held
pub mod Returns
pub mod Routed
pub mod Finished
