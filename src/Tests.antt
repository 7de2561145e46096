-- ===== src/Tests.antt =====
-- Runs of the theorems on a small cluster.
pub mod Storing
pub mod Writes
pub mod Lifetimes
pub mod Sample
pub mod Events
pub mod Reloads
pub mod Updates
pub mod Requests
pub mod Rules
pub mod Alerts
pub mod Start
pub mod Queue
pub mod Texts
pub mod Discovery
pub mod Cooldown
