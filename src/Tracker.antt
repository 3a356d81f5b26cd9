-- ===== src/Tracker.antt =====
-- rewrite/internal/tracker: what a worker may ask of the tracker, and when GitHub may be asked.
pub mod Numbers
pub mod Scope
pub mod Limits
