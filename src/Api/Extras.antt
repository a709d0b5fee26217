-- ===== src/Api/Extras.antt =====
-- The routes under a game server for its mods and its backups in internal/api/routes.go, with
-- `RequireAdmin` of internal/auth/middleware.go.
use kterodactyl.Prelude.{ℕ, String, ◌==◌, Option, none, some, if◌then◌else◌}
use kterodactyl.Kube.Errors.{Reply}
use kterodactyl.Kube.Platform.{Platform}
use kterodactyl.Backups.Storage.{ExecRequest, Storage, Clock}
use kterodactyl.Api.Responses.{status_forbidden, respond_error}
use kterodactyl.Api.Servers.{Handler}
use kterodactyl.Api.Backups.{handle_create_backup, handle_list_backups, handle_delete_backup}
use kterodactyl.Api.Schedules.{SetBackupScheduleRequest, handle_set_backup_schedule}
use kterodactyl.Api.Restores.{handle_restore_backup}
use kterodactyl.Api.Mods.{Upload, TarHeader, handle_upload_mod, handle_list_mods, handle_delete_mod}

-- A request for the backups or the mods of a game server, by the name of the server. A form is what
-- the multipart parser gives, a body what the decoder gives.
pub data BackupCall (F : Type 0) : Type 0 where
  to_create_backup to_list_backups to_list_mods : String → BackupCall F
  to_delete_backup to_restore_backup to_delete_mod : String → String → BackupCall F
  to_set_schedule : String → Reply SetBackupScheduleRequest → BackupCall F
  to_upload_mod : String → Reply (Option (Upload F)) → BackupCall F

-- the writing of an archive with one file into a command: the header, then the content
abbrev pub Send : Type 0 → Type 0 → Type 0
Send S F =
    ExecRequest → TarHeader → F → S → (Reply (Unit {0}) × Reply (Unit {0}) × String × String) × S

abbrev pub role_admin : String
role_admin = "admin"

-- The role is the one of the claims, if there are claims.
unfoldable pub require_admin : {S : Type 0} (p : Platform S) → Option String → Handler p → Handler p
unfolding respond_error
require_admin p none next = respond_error status_forbidden "admin access required"
require_admin p (some role) next =
    if role == role_admin then next else respond_error status_forbidden "admin access required"

module _ {S C R F : Type 0} (p : Platform S) (t : Storage S C R) (clock : Clock) (send : Send S F)
    (operator_namespace : String) (now : ℕ) (ns : String) (role : Option String) where
  -- the routes under /gameservers/{name}/mods, /backups and /backup-schedule
  unfoldable pub serve_backups : BackupCall F → Handler p
  unfolding require_admin handle_create_backup handle_list_backups handle_delete_backup
      handle_restore_backup handle_set_backup_schedule handle_upload_mod handle_list_mods
      handle_delete_mod
  serve_backups (to_create_backup server) = handle_create_backup p clock now ns server
  serve_backups (to_list_backups server) = handle_list_backups p clock ns server
  serve_backups (to_delete_backup server name) =
      require_admin p role (handle_delete_backup p ns server name)
  serve_backups (to_restore_backup server name) =
      require_admin p role (handle_restore_backup p t operator_namespace ns server name)
  serve_backups (to_set_schedule server decoded) =
      require_admin p role (handle_set_backup_schedule p clock ns server decoded)
  serve_backups (to_upload_mod server form) = handle_upload_mod p send ns server form
  serve_backups (to_list_mods server) = handle_list_mods p t ns server
  serve_backups (to_delete_mod server filename) = handle_delete_mod p t ns server filename
