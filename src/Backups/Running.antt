-- ===== src/Backups/Running.antt =====
-- `reconcilePending` and `reconcileInProgress` of internal/controller/backup_controller.go: the
-- checks before a backup, and the backup.
use Prim.Native.String.{◌++◌}
use kterodactyl.Prelude.{
  ℕ, ℤ, String, ◌==◌, Bool, true, false, not, ◌&&◌, ◌||◌, Option, none, some, List, [], ◌∷◌,
  text_at, head_or, if◌then◌else◌,
}
use kterodactyl.Labels.{label_backup_game_server, annotation_backup_path}
use kterodactyl.Lifecycle.{
  GameServerState, ready, allocated, same_state, BackupState, pending, in_progress, failed,
  same_backup_state,
}
use kterodactyl.Kube.Errors.{Piece, str, int, of_err, of_state, Reply, ok, err, wrap, is_not_found}
use kterodactyl.Kube.Meta.{Key, key_of}
use kterodactyl.Kube.Objects.{GameServer, game_servers, Backup, backups}
use kterodactyl.Kube.Exec.{Exec, pure, fail, wrapping, attempt, modify, ◌>>=◌, ◌>>◌}
use kterodactyl.Kube.Platform.{Platform}
use kterodactyl.Controller.Config.{AdminConfig}
use kterodactyl.Controller.Reconcile.{Result, done, again}
use kterodactyl.Backups.Storage.{Storage, Clock}
use kterodactyl.Backups.Status.{transition_backup_state, with_started, with_completed}
use kterodactyl.Backups.Transfer.{ensure_s3_client, perform_backup}

-- `state == GameServerStateReady || state == GameServerStateAllocated`
unfoldable pub is_running : GameServerState → Bool
unfolding same_state
is_running state = same_state state ready || same_state state allocated

unfoldable pub server_key_of : Backup → Key
server_key_of backup = record {
  namespace = backup.meta.namespace;
  name = backup.spec.game_server_name;
}

-- another backup of the list that is in progress, by its name
unfoldable pub other_in_progress : String → List Backup → Option String
unfolding same_backup_state
other_in_progress name [] = none
other_in_progress name (other ∷ others) =
    if not (other.meta.name == name) && same_backup_state other.status.state in_progress
    then some other.meta.name
    else other_in_progress name others

-- the annotation, else "/data"; a path of the backup's own comes first
unfoldable pub backup_path : GameServer → Backup → String
unfolding text_at
backup_path gs backup =
    let annotated = text_at annotation_backup_path gs.meta.annotations in
    head_or (if annotated == "" then "/data" else annotated) backup.spec.backup_paths

-- fmt.Sprintf("backups/%s/%s/%s.tar.gz", namespace, name, time)
unfoldable pub object_key : String → String → String → String
object_key namespace name time =
    "backups/" ++ (namespace ++ ("/" ++ (name ++ ("/" ++ (time ++ ".tar.gz")))))

module _ {S : Type 0} (p : Platform S) (now : ℕ) (backup : Backup) where
  unfoldable pub fail_backup : String → List Piece → Exec S Result
  unfolding transition_backup_state
  fail_backup reason message = transition_backup_state p now backup failed reason message

  -- both functions begin with the game server, and go on with what was found
  unfoldable pub server_of : (GameServer → Exec S Result) → Reply GameServer → Exec S Result
  unfolding fail_backup
  server_of next (ok gs) = next gs
  server_of next (err e) =
      if is_not_found e
      then fail_backup "GameServerNotFound"
          (str "GameServer " ∷ str backup.spec.game_server_name ∷ str " not found" ∷ [])
      else fail (wrap "failed to get GameServer" e)

  unfoldable pub start_backup : Exec S Result
  unfolding with_started
  start_backup = do
    fresh ← wrapping "failed to re-fetch Backup" (p.get backups (key_of backup.meta))
    wrapping "failed to update backup status to InProgress"
        (p.update_status backups (with_started p now fresh))
    modify (
        p.event backup.meta "Normal" "BackupStarted"
          (str "Backup started for GameServer " ∷ str backup.spec.game_server_name ∷ []))
    pure again

  unfoldable pub start_unless : Option String → Exec S Result
  unfolding fail_backup start_backup
  start_unless none = start_backup
  start_unless (some other) =
      fail_backup "ConcurrentBackup"
        (str "Another backup " ∷ str other ∷ str " is already in progress for this server" ∷ [])

  unfoldable pub pending_with : GameServer → Exec S Result
  unfolding is_running fail_backup start_unless other_in_progress
  pending_with gs =
      if is_running gs.status.state
      then (do
        items ← wrapping "failed to list backups" (
            p.list backups (some backup.meta.namespace)
              ((label_backup_game_server, backup.spec.game_server_name) ∷ []))
        start_unless (other_in_progress backup.meta.name items))
      else fail_backup "ServerNotRunning" (
          str "GameServer must be Ready or Allocated, current state: "
          ∷ of_state gs.status.state
          ∷ [])

  unfoldable pub reconcile_pending : AdminConfig → Exec S Result
  unfolding same_backup_state transition_backup_state fail_backup server_of pending_with
      server_key_of
  reconcile_pending cfg =
      if same_backup_state backup.status.state BackupState.unset
      then transition_backup_state p now backup pending "Initializing" (str "Backup queued" ∷ [])
      else if cfg.backup_s3_endpoint == ""
      then fail_backup "S3NotConfigured"
          (str "S3 not configured: set backupS3Endpoint in admin config" ∷ [])
      else do r ← attempt (p.get game_servers (server_key_of backup)); server_of pending_with r

module _ {S C R : Type 0} (p : Platform S) (t : Storage S C R) (clock : Clock)
    (operator_namespace : String) (now : ℕ) (backup : Backup) (cfg : AdminConfig) where
  unfoldable pub complete_backup : GameServer → String → String → ℤ → Exec S Result
  unfolding with_completed
  complete_backup gs bucket key size = do
    fresh ← wrapping "failed to re-fetch Backup" (p.get backups (key_of backup.meta))
    wrapping "failed to update backup status to Completed"
        (p.update_status backups (with_completed p now key bucket size fresh))
    modify (
        p.event backup.meta "Normal" "BackupCompleted" (
          str "Backup completed for GameServer "
          ∷ str gs.meta.name
          ∷ str " (size: "
          ∷ int size
          ∷ str " bytes, key: "
          ∷ str key
          ∷ str ")"
          ∷ []))
    pure done

  unfoldable pub finish_backup : GameServer → String → String → Reply ℤ → Exec S Result
  unfolding fail_backup complete_backup
  finish_backup gs bucket key (ok size) = complete_backup gs bucket key size
  finish_backup gs bucket key (err e) =
      fail_backup p now backup "BackupFailed" (str "Backup failed: " ∷ of_err e ∷ [])

  unfoldable pub upload_backup : GameServer → C × String → Exec S Result
  unfolding object_key perform_backup finish_backup backup_path
  upload_backup gs (client, bucket) =
      let key = object_key gs.meta.namespace gs.meta.name (clock.format_compact now) in
      do
        r ← attempt (
            perform_backup p t operator_namespace (client, bucket) gs.meta.namespace gs.meta.name
              (backup_path gs backup) key)
        finish_backup gs bucket key r

  unfoldable pub after_make : GameServer → C × String → Reply (Unit {0}) → Exec S Result
  unfolding fail_backup upload_backup
  after_make gs c (ok u) = upload_backup gs c
  after_make gs c (err e) =
      fail_backup p now backup "S3BucketCreateError"
        (str "Failed to create S3 bucket: " ∷ of_err e ∷ [])

  unfoldable pub with_bucket : GameServer → C × String → Reply Bool → Exec S Result
  unfolding fail_backup upload_backup after_make
  with_bucket gs c (ok true) = upload_backup gs c
  with_bucket gs (client, bucket) (ok false) = do
    r ← attempt (t.make_bucket client bucket cfg.backup_s3_region)
    after_make gs (client, bucket) r
  with_bucket gs c (err e) =
      fail_backup p now backup "S3BucketCheckError"
        (str "Failed to check S3 bucket: " ∷ of_err e ∷ [])

  unfoldable pub with_client : GameServer → Reply (C × String) → Exec S Result
  unfolding fail_backup with_bucket
  with_client gs (ok (client, bucket)) = do
    r ← attempt (t.bucket_exists client bucket)
    with_bucket gs (client, bucket) r
  with_client gs (err e) =
      fail_backup p now backup "S3ClientError"
        (str "Failed to initialize S3 client: " ∷ of_err e ∷ [])

  unfoldable pub in_progress_with : GameServer → Exec S Result
  unfolding is_running fail_backup ensure_s3_client with_client
  in_progress_with gs =
      if is_running gs.status.state
      then (do r ← attempt (ensure_s3_client p t operator_namespace cfg); with_client gs r)
      else fail_backup p now backup "ServerNotRunning"
          (str "GameServer is no longer running (state: " ∷ of_state gs.status.state ∷ str ")" ∷ [])

  unfoldable pub reconcile_in_progress : Exec S Result
  unfolding server_of in_progress_with server_key_of
  reconcile_in_progress = do
    r ← attempt (p.get game_servers (server_key_of backup))
    server_of p now backup in_progress_with r
