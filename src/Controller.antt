-- ===== src/Controller.antt =====
-- internal/controller
pub mod Lifetime
pub mod WorkItem
pub mod Reconciler
pub mod Predicates
pub mod Discovery
pub mod StatusQueue
pub mod Setup
pub mod Status
pub mod Reload
pub mod Events
pub mod ConfigReconcile
pub mod Reconcile
