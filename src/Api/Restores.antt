-- ===== src/Api/Restores.antt =====
-- `handleRestoreBackup` and `createS3Client` of internal/api/handlers_backups.go.
use Prim.Native.String.{◌++◌}
use kterodactyl.Prelude.{String, ◌==◌, ◌||◌, some, [], ◌∷◌, text_at, trim_space, if◌then◌else◌}
use kterodactyl.Lifecycle.{completed, same_backup_state}
use kterodactyl.Kube.Errors.{str, of_err, failed, wrap, Reply, ok, err}
use kterodactyl.Kube.Objects.{GameServer, Secret, secrets, Backup}
use kterodactyl.Kube.Exec.{Exec, pure, fail, attempt, ◌>>=◌}
use kterodactyl.Kube.Platform.{Platform}
use kterodactyl.Controller.Config.{AdminConfig, load_admin_config}
use kterodactyl.Backups.Storage.{Storage}
use kterodactyl.Backups.Transfer.{s3_credentials_secret_name}
use kterodactyl.Backups.Running.{is_running}
use kterodactyl.Api.Responses.{
  message_body, status_ok, status_conflict, status_internal_server_error,
  status_service_unavailable, respond_json, respond_pieces, respond_error,
}
use kterodactyl.Api.Servers.{Handler, no_namespace}
use kterodactyl.Api.Backups.{for_server, for_backup}
use kterodactyl.Api.Pods.{exec_in_pod, restore_path, restart_server}

module _ {S C R : Type 0} (p : Platform S) (t : Storage S C R) (operator_namespace : String) where
  unfoldable pub client_made : Reply C → Exec S C
  client_made (ok client) = pure client
  client_made (err e) = fail (wrap "failed to create S3 client" e)

  unfoldable pub client_from : AdminConfig → Reply Secret → Exec S C
  unfolding text_at client_made
  client_from cfg (err e) = fail (failed "S3 credentials secret not found")
  client_from cfg (ok secret) =
      let access_key = text_at "accessKeyID" secret.entries in
      let secret_key = text_at "secretAccessKey" secret.entries in
      if access_key == "" || secret_key == ""
      then fail (failed "S3 credentials secret missing accessKeyID or secretAccessKey")
      else client_made
          (t.new_client cfg.backup_s3_endpoint access_key secret_key cfg.backup_s3_use_ssl)

  unfoldable pub create_s3_client : AdminConfig → Exec S C
  unfolding client_from
  create_s3_client cfg = do
    r ← attempt (
        p.get secrets
          (record { namespace = operator_namespace; name = s3_credentials_secret_name }))
    client_from cfg r

  module _ (ns server name : String) (gs : GameServer) (backup : Backup) where
    -- once the archive is unpacked, or is not
    unfoldable pub after_restore : Reply (Unit {0}) × String × String → Handler p
    unfolding respond_error trim_space restart_server
    after_restore (err e, output, errors) =
        respond_error status_internal_server_error
          ("failed to restore backup: " ++ trim_space errors)
    after_restore (ok u, output, errors) =
        restart_server p ns server
          (respond_json status_ok (
            message_body
              (str "restored from backup " ∷ str name ∷ str ", but failed to restart server" ∷ [])))
          (respond_json status_ok (
            message_body (str "restored from backup " ∷ str name ∷ str ", server restarting" ∷ [])))

    unfoldable pub unpack : Reply R → Handler p
    unfolding respond_error exec_in_pod after_restore restore_path
    unpack (err e) = respond_error status_internal_server_error "failed to decompress backup"
    unpack (ok reader) = do
      output ←
          exec_in_pod t ns server ("tar" ∷ "-xf" ∷ "-" ∷ "-C" ∷ restore_path gs ∷ []) (some reader)
      after_restore output

    unfoldable pub downloaded : Reply R → Handler p
    unfolding respond_error unpack
    downloaded (err e) =
        respond_error status_internal_server_error "failed to download backup from S3"
    downloaded (ok object) = unpack (t.gunzip object)

    unfoldable pub restore_with_client : Reply C → Handler p
    unfolding respond_pieces downloaded
    restore_with_client (err e) =
        respond_pieces status_service_unavailable
          (str "failed to initialize S3 client: " ∷ of_err e ∷ [])
    restore_with_client (ok client) = do
      r ← attempt (t.get_object client backup.status.s3_bucket backup.status.s3_key)
      downloaded r

    unfoldable pub restore_with : Reply AdminConfig → Handler p
    unfolding respond_error create_s3_client restore_with_client
    restore_with (err e) =
        respond_error status_service_unavailable "S3 backup storage not configured"
    restore_with (ok cfg) =
        if cfg.backup_s3_endpoint == ""
        then respond_error status_service_unavailable "S3 backup storage not configured"
        else do r ← attempt (create_s3_client cfg); restore_with_client r

    unfoldable pub restore_backup : Handler p
    unfolding respond_error same_backup_state is_running load_admin_config restore_with
    restore_backup =
        if same_backup_state backup.status.state completed
        then if is_running gs.status.state
          then (do r ← attempt (load_admin_config p operator_namespace); restore_with r)
          else respond_error status_conflict "server must be running to restore from backup"
        else respond_error status_conflict "backup must be in Completed state to restore"

  unfoldable pub handle_restore_backup : String → String → String → Handler p
  unfolding for_server for_backup restore_backup
  handle_restore_backup ns server name =
      if ns == ""
      then no_namespace p
      else for_server p ns server
          λ gs. for_backup p ns server name λ backup. restore_backup ns server name gs backup
