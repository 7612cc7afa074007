-- ===== src/Command.antt =====
-- The package command: the loops that post metrics, run the checks and keep the host up to date.
pub mod Post
pub mod Checker
pub mod Reports
pub mod Host
pub mod Enqueue
pub mod Metadata
pub mod App
pub mod Once
