-- ===== src/Controller.antt =====
-- The controller: internal/controller.
pub mod Vlan
pub mod Watches
pub mod Status
pub mod Manager
pub mod Interface
pub mod Reconcile
pub mod Diff
pub mod Actions
