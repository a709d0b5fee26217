-- ===== src/Backups.antt =====
-- internal/controller/backup_controller.go.
pub mod Storage
pub mod Status
pub mod Transfer
pub mod Running
pub mod Retention
pub mod Schedule
pub mod Changes
pub mod Moves
pub mod Frame
pub mod Finishing
pub mod Keeping
pub mod Deleting
pub mod Reconciliation
pub mod Requests
pub mod Delays
pub mod Making
pub mod Due
