-- ===== src/Workload.antt =====
-- internal/pkg/workload
pub mod Target
pub mod Annotations
pub mod Finder
pub mod Template
pub mod Rollout
pub mod Updater
pub mod Pause
