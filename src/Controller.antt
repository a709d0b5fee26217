-- ===== src/Controller.antt =====
-- internal/controller/gameserver_controller.go: the admin configuration, and the reconciler of game
-- servers. The modules from `Status` on are proofs.
pub mod Config
pub mod Conditions
pub mod Pods
pub mod Namespaces
pub mod Reconcile
pub mod Status
pub mod Creation
pub mod Created
pub mod Counts
pub mod Defaults
pub mod Moves
pub mod Transitions
