-- ===== src/Examples.antt =====
-- Concrete requests, watchers and scopes, on which the theorems are applied.
mod Sample
mod Ordered
mod Rounds
mod Slots
mod Access
mod Graph
mod Limits
mod Watching
mod Waits
mod Comments
mod Notices
mod Selection
mod Turns
mod Replies
