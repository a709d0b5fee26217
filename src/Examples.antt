-- ===== src/Examples.antt =====
-- Runs of the theorems on concrete states of the lifecycle and of the cluster in memory.
mod Lifecycle
mod Data
mod Storage
mod Backups
mod Extras
mod Invites
mod Controller
mod Creation
mod Api
mod Auth
