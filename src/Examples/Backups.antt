-- ===== src/Examples/Backups.antt =====
-- Requests to the backup controller on a cluster with a running game server and backups of it.
use kterodactyl.Prelude.{
  ℕ, pos, ◌++◌, String, ◌≡◌, ◌⊎◌, refl, some, List, [], ◌∷◌, length, Any, Shuffle, none,
}
use kterodactyl.Labels.{label_backup_game_server, annotation_backup_schedule}
use kterodactyl.Lifecycle.{BackupState, in_progress, completed, ready}
use kterodactyl.Kube.Errors.{Reply}
use kterodactyl.Kube.Meta.{Key, key_of, new_meta}
use kterodactyl.Kube.Objects.{Backup, backups, GameServer, game_servers}
use kterodactyl.Kube.Exec.{attempt, ◌>>=◌}
use kterodactyl.Kube.Memory.{Memory, empty, memory, list, delete, find}
use kterodactyl.Kube.Memory.Satisfies.{memory_laws}
use kterodactyl.Controller.Reconcile.{Result}
use kterodactyl.Backups.Retention.{completed_of, expired, enforce_retention}
use kterodactyl.Backups.Keeping.{kept_of, AllNoLater, expired_oldest}
use kterodactyl.Backups.Schedule.{scheduled_found, reconcile_request, schedule_requests}
use kterodactyl.Backups.Changes.{Change, Turnover}
use kterodactyl.Backups.Deleting.{enforce_retention_deletes}
use kterodactyl.Backups.Reconciliation.{
  reconcile_changes_backups, reconcile_request-prefixed_backup,
}
use kterodactyl.Backups.Requests.{reconcile_request-schedule_requests}
use kterodactyl.Examples.Data.{server, server_meta}
use kterodactyl.Examples.Storage.{storage, storage_laws, clock, clock_laws, insertion_sort}

abbrev made_at : String → BackupState → ℕ → Backup
made_at name state created = record {
  meta = record (new_meta name "user-ana" ((label_backup_game_server, "arena") ∷ []) []) {
    creation_timestamp = some created;
  };
  spec = record { game_server_name = "arena"; backup_paths = [] };
  status = record {
    state = state;
    s3_key = "";
    s3_bucket = "";
    size = pos 0;
    started_at = none;
    completed_at = none;
    message = [];
    conditions = [];
  };
}

abbrev saved : List Backup
saved =
    made_at "a" completed 10
    ∷ made_at "b" completed 30
    ∷ made_at "c" in_progress 20
    ∷ made_at "d" completed 20
    ∷ []

-- the game server runs, and has a schedule
abbrev pub running : GameServer
running = record server {
  meta = record server_meta { annotations = (annotation_backup_schedule, "0 * * * *") ∷ [] };
  status = record (server.status) { state = ready };
}

abbrev pub cluster : Memory
cluster = record empty { stored_game_servers = running ∷ []; stored_backups = saved }

abbrev key_named : String → Key
key_named name = record { namespace = "user-ana"; name = name }

reconcile_changes_backups_example : Change (memory_laws.at backups cluster (key_named "c")) (
    memory_laws.at backups
      (reconcile_request memory storage clock "" 50 (key_named "c") cluster).1
      (key_named "c"))
reconcile_changes_backups_example =
    reconcile_changes_backups memory_laws storage_laws clock_laws "" 50 (key_named "c") cluster
      (key_named "c")

expired_oldest_example :
    Shuffle (kept_of clock 2 saved ++ expired clock 2 saved) (completed_of saved)
    × (length (kept_of clock 2 saved) ≡ 2)
    × AllNoLater (expired clock 2 saved) (kept_of clock 2 saved)
unfolding completed_of
expired_oldest_example = expired_oldest clock_laws 2 saved

oldest_expires : expired clock 2 saved ≡ made_at "a" completed 10 ∷ []
unfolding expired insertion_sort
oldest_expires = refl

enforce_retention_deletes_example :
    (memory_laws.at backups
        (enforce_retention memory storage clock "user-ana" "arena" (pos 2) cluster).1
        (key_named "a")
      ≡ memory_laws.at backups cluster (key_named "a"))
    ⊎ (Any
          (λ old.
            (memory_laws.at backups cluster (key_named "a") ≡ some old)
            × (old.status.state ≡ completed))
          (expired clock 2 saved)
        × (memory_laws.at backups
              (enforce_retention memory storage clock "user-ana" "arena" (pos 2) cluster).1
              (key_named "a")
            ≡ none))
unfolding list
enforce_retention_deletes_example =
    enforce_retention_deletes memory_laws storage_laws clock clock_laws "user-ana" "arena" 1 cluster
      (key_named "a") refl

-- The oldest backup is gone, and a newer one is there.
retention_run :
    (memory_laws.at backups
        (enforce_retention memory storage clock "user-ana" "arena" (pos 2) cluster).1
        (key_named "a")
      ≡ none)
    × (memory_laws.at backups
          (enforce_retention memory storage clock "user-ana" "arena" (pos 2) cluster).1
          (key_named "b")
        ≡ some (made_at "b" completed 30))
unfolding enforce_retention ◌>>=◌ list delete find memory_laws insertion_sort
retention_run = (refl, refl)

abbrev handled : Reply Result × Memory
handled =
    (attempt (memory.get game_servers (key_of running.meta))
        >>= scheduled_found memory storage clock "" 50)
      cluster

reconcile_request-schedule_requests_example :
    ((reconcile_request memory storage clock "" 50 (key_named "schedule-arena") cluster ≡ handled)
      × Unit {0})
    × (length (schedule_requests running) ≡ 1)
unfolding schedule_requests
reconcile_request-schedule_requests_example =
    reconcile_request-schedule_requests memory storage clock "" 50 running cluster

reconcile_request-prefixed_backup_example :
    Turnover (memory_laws.at backups cluster (key_named "schedule-x-backup-1")) (
      memory_laws.at backups
        (reconcile_request memory storage clock "" 50 (key_named "schedule-x-backup-1") cluster).1
        (key_named "schedule-x-backup-1"))
reconcile_request-prefixed_backup_example =
    reconcile_request-prefixed_backup memory_laws storage_laws clock_laws "" 50 "user-ana"
      "x-backup-1" cluster (key_named "schedule-x-backup-1")
