-- ===== src/Backups/Status.antt =====
-- `transitionBackupState` of internal/controller/backup_controller.go, and the two other writes of a
-- backup's status. The logger is left out.
use kterodactyl.Prelude.{ℕ, ℤ, String, Option, none, some, [], ◌∷◌, List, if◌then◌else◌}
use kterodactyl.Lifecycle.{
  BackupState, pending, in_progress, completed, failed, is_backup_terminal, same_backup_state,
}
use kterodactyl.Kube.Errors.{Piece, str, int, of_backup_state}
use kterodactyl.Kube.Meta.{key_of, Condition, is_true, is_false}
use kterodactyl.Kube.Objects.{Backup, backups}
use kterodactyl.Kube.Exec.{Exec, pure, wrapping, modify, ◌>>=◌, ◌>>◌}
use kterodactyl.Kube.Platform.{Platform}
use kterodactyl.Controller.Conditions.{set}
use kterodactyl.Controller.Reconcile.{Result, done, again}

abbrev pub condition_ready : String
condition_ready = "Ready"

-- `if t == nil { t = &now }`
unfoldable pub or_now : ℕ → Option ℕ → Option ℕ
or_now now none = some now
or_now now (some t) = some t

module _ {S : Type 0} (p : Platform S) (now : ℕ) where
  -- the conditions that the `switch newState` sets
  unfoldable pub backup_conditions :
      ℕ → BackupState → String → List Piece → List Condition → List Condition
  unfolding set
  backup_conditions generation pending reason message cs =
      set p now generation condition_ready is_false reason message cs
  backup_conditions generation failed reason message cs =
      set p now generation condition_ready is_false reason message cs
  backup_conditions generation _ reason message cs = cs

  -- the time of the end, which the same `switch` sets
  unfoldable pub completion_time : BackupState → Option ℕ → Option ℕ
  unfolding or_now
  completion_time failed t = or_now now t
  completion_time _ t = t

  unfoldable pub with_backup_state : BackupState → String → List Piece → Backup → Backup
  unfolding backup_conditions completion_time
  with_backup_state new reason message fresh = record fresh {
    status = record (fresh.status) {
      state = new;
      message = message;
      conditions =
          backup_conditions fresh.meta.generation new reason message fresh.status.conditions;
      completed_at = completion_time new fresh.status.completed_at;
    };
  }

  unfoldable pub event_type : BackupState → String
  unfolding same_backup_state
  event_type new = if same_backup_state new failed then "Warning" else "Normal"

  -- once the object is read anew
  unfoldable pub write_backup_state :
      Backup → BackupState → String → List Piece → Backup → Exec S Result
  unfolding with_backup_state event_type is_backup_terminal
  write_backup_state backup new reason message fresh = do
    wrapping "failed to update backup status"
        (p.update_status backups (with_backup_state new reason message fresh))
    modify (
        p.event backup.meta (event_type new) "StateChanged" (
          str "Backup state changed from "
          ∷ of_backup_state backup.status.state
          ∷ str " to "
          ∷ of_backup_state new
          ∷ str ": "
          ∷ message))
    pure (if is_backup_terminal new then done else again)

  unfoldable pub transition_backup_state :
      Backup → BackupState → String → List Piece → Exec S Result
  unfolding write_backup_state
  transition_backup_state backup new reason message = do
    fresh ←
        wrapping "failed to re-fetch Backup for status update" (p.get backups (key_of backup.meta))
    write_backup_state backup new reason message fresh

  -- the status with which a backup starts
  unfoldable pub with_started : Backup → Backup
  unfolding set
  with_started fresh = record fresh {
    status = record (fresh.status) {
      state = in_progress;
      started_at = some now;
      message = str "Backup in progress" ∷ [];
      conditions =
          set p now fresh.meta.generation condition_ready is_false "BackupStarted"
            (str "Backup operation started" ∷ []) fresh.status.conditions;
    };
  }

  -- the status with which a backup ends, from the key, the bucket and the size of what was stored
  unfoldable pub with_completed : String → String → ℤ → Backup → Backup
  unfolding set
  with_completed key bucket size fresh = record fresh {
    status = record (fresh.status) {
      state = completed;
      s3_key = key;
      s3_bucket = bucket;
      size = size;
      completed_at = some now;
      message = str "Backup completed successfully" ∷ [];
      conditions =
          set p now fresh.meta.generation condition_ready is_true "BackupCompleted"
            (str "Backup completed, size: " ∷ int size ∷ str " bytes" ∷ []) fresh.status.conditions;
    };
  }
