-- ===== src/Tests.antt =====
-- Tests of the definitions on concrete inputs, and the theorems applied at them.
mod Post
mod Commands
mod Spec
mod Df
mod Bsd
mod Shutdown
mod Reports
mod Agent
mod Checker
mod Supervisor
mod Enqueue
mod Metrics
mod Host
mod Metadata
mod Main
mod Config
mod Pidfile
