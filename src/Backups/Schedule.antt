-- ===== src/Backups/Schedule.antt =====
-- `reconcileGameServerSchedule` of internal/controller/backup_controller.go, the mapping of watched
-- game servers to requests in its `SetupWithManager`, and `Reconcile`, which tells the requests apart.
use Prim.Native.Char.{code}
use Prim.Native.String.{◌++◌}
use kterodactyl.Prelude.{
  ℕ, ◌-◌, ◌^◌, ℤ, atoi, String, ◌==◌, Bool, false, Option, none, some, List, [], ◌∷◌, insert,
  text_at, ltb, nat_eq, if◌then◌else◌,
}
use kterodactyl.Labels.{
  label_backup_game_server, label_managed_by_kterodactyl, managed_by_value,
  annotation_backup_schedule, annotation_backup_retention, annotation_last_backup_time,
}
use kterodactyl.Lifecycle.{BackupState, pending, in_progress, is_backup_terminal}
use kterodactyl.Kube.Errors.{str, Reply, ok, err, wrap, is_not_found, is_already_exists}
use kterodactyl.Kube.Meta.{Key, key_of, new_meta}
use kterodactyl.Kube.Objects.{GameServer, game_servers, Backup, backups}
use kterodactyl.Kube.Exec.{Exec, pure, fail, wrapping, attempt, modify, ◌>>=◌, ◌>>◌}
use kterodactyl.Kube.Platform.{Platform}
use kterodactyl.Controller.Config.{AdminConfig, load_admin_config}
use kterodactyl.Controller.Namespaces.{operator_ns}
use kterodactyl.Controller.Reconcile.{Result, done, after}
use kterodactyl.Backups.Storage.{Storage, Clock}
use kterodactyl.Backups.Running.{is_running, reconcile_pending, reconcile_in_progress}
use kterodactyl.Backups.Retention.{enforce_retention}

-- `strings.HasPrefix` and `strings.TrimPrefix` in one: the rest of a text after a prefix
unfoldable pub without_prefix : String → String → Option String
without_prefix String.[] s = some s
without_prefix (String.◌∷◌ c prefix) String.[] = none
without_prefix (String.◌∷◌ c prefix) (String.◌∷◌ d s) =
    let rest = without_prefix prefix s in if nat_eq (code c) (code d) then rest else none

abbrev pub schedule_prefix : String
schedule_prefix = "schedule-"

-- `next.Sub(now)`, which saturates at the range of a 64-bit `Duration`. A delay that is not above
-- zero reads as none, as the library that takes it does.
unfoldable pub delay_until : ℕ → Option ℕ → ℕ
delay_until now none = 0
delay_until now (some next) = if ltb (next - now) (2 ^ 63) then next - now else 2 ^ 63 - 1

-- `now.Before(next)`; the zero time is before every time
unfoldable pub is_before : ℕ → Option ℕ → Bool
is_before now none = false
is_before now (some next) = ltb now next

-- the count in the annotation, if it is a number
unfoldable pub retention_count : GameServer → ℤ → ℤ
unfolding text_at
retention_count gs configured =
    let text = text_at annotation_backup_retention gs.meta.annotations in
    if text == "" then configured else elim (atoi text) [ none ↦ configured | some n ↦ n ]

module _ (clock : Clock) (now : ℕ) (gs : GameServer) where
  -- the time after which the next backup comes
  unfoldable pub last_backup : Option ℕ
  unfolding text_at
  last_backup =
      let text = text_at annotation_last_backup_time gs.meta.annotations in
      let parsed = if text == "" then none else clock.parse_rfc3339 text in
      elim parsed [ none ↦ gs.meta.creation_timestamp | some t ↦ some t ]

  unfoldable pub scheduled_backup : Backup
  scheduled_backup = record {
    meta =
        new_meta (gs.meta.name ++ ("-scheduled-" ++ clock.format_compact now)) gs.meta.namespace
          ((label_backup_game_server, gs.meta.name)
            ∷ (label_managed_by_kterodactyl, managed_by_value)
            ∷ [])
          [];
    spec = record { game_server_name = gs.meta.name; backup_paths = [] };
    status = record {
      state = BackupState.unset;
      s3_key = "";
      s3_bucket = "";
      size = ℤ.pos 0;
      started_at = none;
      completed_at = none;
      message = [];
      conditions = [];
    };
  }

  unfoldable pub with_last_backup : GameServer → GameServer
  with_last_backup fresh = record fresh {
    meta = record (fresh.meta) {
      annotations =
          insert annotation_last_backup_time (clock.format_rfc3339 now) fresh.meta.annotations;
    };
  }

module _ {S C R : Type 0} (p : Platform S) (t : Storage S C R) (clock : Clock)
    (operator_namespace : String) (now : ℕ) where
  module _ (gs : GameServer) where
    unfoldable pub after_create : Reply Backup → Exec S (Unit {0})
    unfolding scheduled_backup
    after_create (ok b) = modify (
        p.event gs.meta "Normal" "ScheduledBackup"
          (str "Created scheduled backup " ∷ str (scheduled_backup clock now gs).meta.name ∷ []))
    after_create (err e) =
        if is_already_exists e then pure tt else fail (wrap "failed to create scheduled backup" e)

    -- errors are only logged
    unfoldable pub retain_with : Reply AdminConfig → Exec S (Unit {0})
    unfolding enforce_retention retention_count
    retain_with (err e) = pure tt
    retain_with (ok cfg) = do
      attempt (
          enforce_retention p t clock gs.meta.namespace gs.meta.name
            (retention_count gs cfg.backup_retention_count))
      pure tt

    -- once a backup is due
    unfoldable pub make_scheduled : (Option ℕ → Option ℕ) → Exec S Result
    unfolding scheduled_backup after_create with_last_backup operator_ns load_admin_config
        retain_with delay_until
    make_scheduled next = do
      created ← attempt (p.create backups (scheduled_backup clock now gs))
      after_create created
      fresh ← wrapping "failed to re-fetch GameServer" (p.get game_servers (key_of gs.meta))
      wrapping "failed to update last backup time"
          (p.update game_servers (with_last_backup clock now gs fresh))
      config ← attempt (load_admin_config p (operator_ns operator_namespace))
      retain_with config
      pure (after (delay_until now (next (some now))))

    unfoldable pub with_schedule : Reply (Option ℕ → Option ℕ) → Exec S Result
    unfolding last_backup is_before delay_until make_scheduled
    with_schedule (err e) = pure done
    with_schedule (ok next) =
        let due = next (last_backup clock now gs) in
        if is_before now due then pure (after (delay_until now due)) else make_scheduled next

    unfoldable pub reconcile_game_server_schedule : Exec S Result
    unfolding text_at is_running with_schedule
    reconcile_game_server_schedule =
        let schedule = text_at annotation_backup_schedule gs.meta.annotations in
        if schedule == ""
        then pure done
        else if is_running gs.status.state
        then with_schedule (clock.parse_schedule schedule)
        else pure done

  -- the `switch` on the state, its last clause the default
  unfoldable pub dispatch_backup : BackupState → Backup → AdminConfig → Exec S Result
  unfolding reconcile_pending reconcile_in_progress
  dispatch_backup BackupState.unset backup cfg = reconcile_pending p now backup cfg
  dispatch_backup pending backup cfg = reconcile_pending p now backup cfg
  dispatch_backup in_progress backup cfg =
      reconcile_in_progress p t clock operator_namespace now backup cfg
  dispatch_backup _ backup cfg = pure done

  unfoldable pub reconcile_backup : Backup → Exec S Result
  unfolding is_backup_terminal load_admin_config operator_ns dispatch_backup
  reconcile_backup backup = if is_backup_terminal backup.status.state then pure done else do
    cfg ←
        wrapping "failed to load admin config"
          (load_admin_config p (operator_ns operator_namespace))
    dispatch_backup backup.status.state backup cfg

  unfoldable pub backup_found : Reply Backup → Exec S Result
  unfolding reconcile_backup
  backup_found (ok backup) = reconcile_backup backup
  backup_found (err e) = if is_not_found e then pure done else fail (wrap "failed to get Backup" e)

  unfoldable pub scheduled_found : Reply GameServer → Exec S Result
  unfolding reconcile_game_server_schedule
  scheduled_found (ok gs) = reconcile_game_server_schedule gs
  scheduled_found (err e) =
      if is_not_found e then pure done else fail (wrap "failed to get GameServer for schedule" e)

  unfoldable pub reconcile_named : Key → Option String → Exec S Result
  unfolding scheduled_found backup_found
  reconcile_named key (some server) = do
    r ← attempt (p.get game_servers (record { namespace = key.namespace; name = server }))
    scheduled_found r
  reconcile_named key none = do r ← attempt (p.get backups key); backup_found r

  unfoldable pub reconcile_request : Key → Exec S Result
  unfolding without_prefix reconcile_named
  reconcile_request key = reconcile_named key (without_prefix schedule_prefix key.name)

-- the requests for a watched game server
unfoldable pub schedule_requests : GameServer → List Key
unfolding text_at
schedule_requests gs =
    if text_at annotation_backup_schedule gs.meta.annotations == ""
    then []
    else record { namespace = gs.meta.namespace; name = schedule_prefix ++ gs.meta.name } ∷ []
