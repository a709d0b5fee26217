-- ===== src/Api/Backups.antt =====
-- The handlers of internal/api/handlers_backups.go that create, list and delete
-- backups.
use Prim.Native.String.{◌++◌}
use kterodactyl.Prelude.{
  ℕ, pos, String, ◌==◌, Bool, true, false, none, some, List, [], ◌∷◌, map, length, if◌then◌else◌,
}
use kterodactyl.Labels.{label_backup_game_server, label_managed_by, managed_by_value}
use kterodactyl.Lifecycle.{BackupState, pending, in_progress, same_backup_state}
use kterodactyl.Kube.Errors.{Reply, ok, err}
use kterodactyl.Kube.Meta.{new_meta}
use kterodactyl.Kube.Objects.{GameServer, game_servers, Backup, backups}
use kterodactyl.Kube.Exec.{attempt, ◌>>=◌}
use kterodactyl.Kube.Platform.{Platform}
use kterodactyl.Backups.Storage.{Clock}
use kterodactyl.Backups.Running.{is_running}
use kterodactyl.Backups.Retention.{is_newer}
use kterodactyl.Api.Responses.{
  no_body, backup_body, backup_list_body, backup_to_response, status_ok, status_created,
  status_no_content, status_not_found, status_conflict, status_internal_server_error, respond_json,
  respond_error,
}
use kterodactyl.Api.Servers.{Handler, no_namespace}

-- a backup of the list that is in progress
unfoldable pub any_in_progress : List Backup → Bool
unfolding same_backup_state
any_in_progress [] = false
any_in_progress (b ∷ items) =
    if same_backup_state b.status.state in_progress then true else any_in_progress items

-- the object that `handleCreateBackup` creates
unfoldable pub new_backup : String → String → String → Backup
new_backup ns server time = record {
  meta =
      new_meta (server ++ ("-backup-" ++ time)) ns
        ((label_backup_game_server, server) ∷ (label_managed_by, managed_by_value) ∷ []) [];
  spec = record { game_server_name = server; backup_paths = [] };
  status = record {
    state = BackupState.unset;
    s3_key = "";
    s3_bucket = "";
    size = pos 0;
    started_at = none;
    completed_at = none;
    message = [];
    conditions = [];
  };
}

module _ {S : Type 0} (p : Platform S) where
  -- any error of the read is answered with 404
  unfoldable pub server_or_404 : String → (GameServer → Handler p) → Reply GameServer → Handler p
  unfolding respond_error
  server_or_404 name next (ok gs) = next gs
  server_or_404 name next (err e) =
      respond_error status_not_found ("game server not found: " ++ name)

  unfoldable pub for_server : String → String → (GameServer → Handler p) → Handler p
  unfolding server_or_404
  for_server ns name next = do
    r ← attempt (p.get game_servers (record { namespace = ns; name = name }))
    server_or_404 name next r

  -- the backup, if it is one of the game server
  unfoldable pub backup_or_404 : String → String → (Backup → Handler p) → Reply Backup → Handler p
  unfolding respond_error
  backup_or_404 server name next (ok backup) =
      if backup.spec.game_server_name == server
      then next backup
      else respond_error status_not_found "backup not found for this game server"
  backup_or_404 server name next (err e) =
      respond_error status_not_found ("backup not found: " ++ name)

  unfoldable pub for_backup : String → String → String → (Backup → Handler p) → Handler p
  unfolding backup_or_404
  for_backup ns server name next = do
    r ← attempt (p.get backups (record { namespace = ns; name = name }))
    backup_or_404 server name next r

  unfoldable pub state_written : Reply Backup → Handler p
  unfolding respond_error backup_to_response
  state_written (ok backup) = respond_json status_created (backup_body (backup_to_response backup))
  state_written (err e) =
      respond_error status_internal_server_error "backup created but failed to set initial state"

  unfoldable pub backup_created : Reply Backup → Handler p
  unfolding respond_error state_written
  backup_created (err e) = respond_error status_internal_server_error "failed to create backup"
  backup_created (ok backup) = do
    r ← attempt (
        p.update_status backups
          (record backup { status = record (backup.status) { state = pending } }))
    state_written r

  unfoldable pub create_unless_running : String → String → String → Reply (List Backup) → Handler p
  unfolding respond_error any_in_progress new_backup backup_created
  create_unless_running ns server time (err e) =
      respond_error status_internal_server_error "failed to list backups"
  create_unless_running ns server time (ok items) =
      if any_in_progress items
      then respond_error status_conflict "backup already in progress"
      else do r ← attempt (p.create backups (new_backup ns server time)); backup_created r

  unfoldable pub create_backup_of : String → String → String → GameServer → Handler p
  unfolding respond_error is_running create_unless_running
  create_backup_of ns server time gs =
      if is_running gs.status.state
      then (do
        r ← attempt (p.list backups (some ns) ((label_backup_game_server, server) ∷ []))
        create_unless_running ns server time r)
      else respond_error status_conflict "server must be running to create backup"

  unfoldable pub handle_create_backup : Clock → ℕ → String → String → Handler p
  unfolding for_server create_backup_of
  handle_create_backup clock now ns server =
      if ns == ""
      then no_namespace p
      else for_server ns server (create_backup_of ns server (clock.format_compact now))

  unfoldable pub backups_listed : Clock → Reply (List Backup) → Handler p
  unfolding respond_error backup_to_response is_newer
  backups_listed clock (err e) = respond_error status_internal_server_error "failed to list backups"
  backups_listed clock (ok items) =
      respond_json status_ok
        (backup_list_body (map backup_to_response (clock.sort_slice is_newer items)) (length items))

  unfoldable pub handle_list_backups : Clock → String → String → Handler p
  unfolding for_server backups_listed
  handle_list_backups clock ns server =
      if ns == ""
      then no_namespace p
      else for_server ns server λ gs. do
        r ← attempt (p.list backups (some ns) ((label_backup_game_server, server) ∷ []))
        backups_listed clock r

  unfoldable pub backup_deleted : Reply (Unit {0}) → Handler p
  unfolding respond_error
  backup_deleted (ok u) = respond_json status_no_content no_body
  backup_deleted (err e) = respond_error status_internal_server_error "failed to delete backup"

  unfoldable pub handle_delete_backup : String → String → String → Handler p
  unfolding for_backup backup_deleted
  handle_delete_backup ns server name =
      if ns == ""
      then no_namespace p
      else for_backup ns server name
          λ backup. do r ← attempt (p.delete backups backup none); backup_deleted r
