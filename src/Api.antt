-- ===== src/Api.antt =====
-- internal/api: the REST handlers. A handler gets what the router and the middleware took from the
-- request, and always answers; the JSON codec is left out.
pub mod Responses
pub mod Manifests
pub mod Requests
pub mod Servers
pub mod Backups
pub mod Schedules
pub mod Pods
pub mod Restores
pub mod Mods
pub mod Extras
pub mod Admin
pub mod Users
pub mod Filenames
pub mod Scheduling
pub mod Routes
pub mod Parameters
pub mod Isolation
pub mod Outcomes
pub mod Refusals
