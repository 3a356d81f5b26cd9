-- ===== src/Engine.antt =====
-- rewrite/cmd/engine: the watchers of the accepted requests, and what they read, record and say.
pub mod Turnstile
pub mod WorkLimit
pub mod Comments
pub mod Pause
pub mod Notices
pub mod Watch
pub mod Selection
pub mod Turns
pub mod Question
