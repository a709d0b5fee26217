-- ===== src/Backups/Reconciliation.antt =====
-- The changes that any request to the backup controller makes to the stored backups.
use kterodactyl.Labels.{annotation_backup_schedule}
use Prim.Native.String.{◌++◌}
use kterodactyl.Prelude.{
  ℕ, String, ◌==◌, text_at, ◌≡◌, refl, sym, ap, ◌∙◌, ◌⊎◌, inl, inr, Option, none, some,
}
use kterodactyl.Lifecycle.{BackupState, pending, in_progress, is_backup_terminal}
use kterodactyl.Kube.Errors.{Reply, ok, err, is_not_found, ok_inj}
use kterodactyl.Kube.Meta.{Key, key_of}
use kterodactyl.Kube.Objects.{ConfigMap, config_maps, GameServer, game_servers, Backup, backups}
use kterodactyl.Kube.Exec.{attempt}
use kterodactyl.Kube.Exec.Leaves.{
  Leaves, Leaves-pure, Leaves-fail, Leaves-if, Leaves-wrapping, Leaves-attempt, Leaves-bind,
}
use kterodactyl.Kube.Exec.Runs.{
  Runs, Runs-if, Runs-attempt, Runs-of_Leaves, Runs-bind, Runs-bind_of, Runs-seq, Runs-then,
  Runs-pre,
}
use kterodactyl.Kube.Platform.{Platform, Laws}
use kterodactyl.Controller.Config.{AdminConfig, admin_config_map_name, config_of, load_admin_config}
use kterodactyl.Controller.Namespaces.{operator_ns}
use kterodactyl.Controller.Reconcile.{done, after}
use kterodactyl.Backups.Storage.{Storage, Clock, StorageLaws, ClockLaws}
use kterodactyl.Backups.Running.{is_running}
use kterodactyl.Backups.Schedule.{
  without_prefix, schedule_prefix, scheduled_backup, with_last_backup, is_before, last_backup,
  after_create, retain_with, make_scheduled, with_schedule, reconcile_game_server_schedule,
  dispatch_backup, reconcile_backup, backup_found, scheduled_found, reconcile_named,
  reconcile_request, retention_count,
}
use kterodactyl.Backups.Changes.{
  Change, Turnover, Turnover-Change, Turnovers, Turnovers-stay, Stored, Changes, stored_backups,
  Leaves-every, Handles, Changes-stay,
}
use kterodactyl.Backups.Moves.{backups-get, backups-event, Handles-quiet, Handles-pending}
use kterodactyl.Backups.Finishing.{Handles-in_progress}
use kterodactyl.Backups.Requests.{without_prefix-append}
use kterodactyl.Backups.Deleting.{Removed, enforce_retention-removes}

-- What a creation does under one key.
abbrev Made : Option Backup → Option Backup → Type 0
Made before after =
    (after ≡ before)
    ⊎ ((before ≡ none)
        × ((new : Backup) × (after ≡ some new) × (new.status.state ≡ BackupState.unset)))

Turnover-seq : (u v w : Option Backup) → Made u v → Removed v w → Turnover u w
Turnover-seq u v w (inl e) (inl f) = inl (f ∙ e)
Turnover-seq u v w (inl e) (inr (old, h, c, g)) = inr (inr (old, sym e ∙ h, c, g))
Turnover-seq u v w (inr (h, (new, e, c))) (inl f) = inr (inl (h, (new, f ∙ e, c)))
Turnover-seq u v w (inr (h, (new, e, c))) (inr (old, k, c', g)) = inl (g ∙ sym h)

Turnover-Made : (u v : Option Backup) → Made u v → Turnover u v
Turnover-Made u v (inl e) = inl e
Turnover-Made u v (inr made_new) = inr (inl made_new)

module _ {S : Type 0} {p : Platform S} (l : Laws p) where
  backups-config_of : (r : Reply ConfigMap) → Leaves (stored_backups l) (config_of p r)
  unfolding config_of
  backups-config_of (ok cm) = Leaves-pure _
  backups-config_of (err e) = Leaves-if (is_not_found e) _ _ (Leaves-pure _) (Leaves-fail _)

  backups-load_admin_config : (ns : String) → Leaves (stored_backups l) (load_admin_config p ns)
  unfolding load_admin_config
  backups-load_admin_config ns =
      Leaves-bind _ _
        (Leaves-attempt _
          (backups-get l config_maps (record { namespace = ns; name = admin_config_map_name })))
        backups-config_of

  backups-update_server : (gs : GameServer) → Leaves (stored_backups l) (p.update game_servers gs)
  backups-update_server gs =
      Leaves-every l _
        (λ q. record { same_view = λ s. l.update_frame gs s backups q (inl (λ e. cc)) })

module _ {S C R : Type 0} {p : Platform S} (l : Laws p) {t : Storage S C R} (sl : StorageLaws l t)
    {clock : Clock} (cl : ClockLaws clock) (operator_namespace : String) (now : ℕ) where
  module _ (gs : GameServer) where
    backups-after_create :
        (r : Reply Backup)
        → Leaves (stored_backups l) (after_create p t clock operator_namespace now gs r)
    unfolding after_create
    backups-after_create (ok b) = backups-event l _ _ _ _
    backups-after_create (err e) = Leaves-if _ _ _ (Leaves-pure _) (Leaves-fail _)

    Runs-create :
        Runs
          (stored_backups l)
          (λ v. Unit)
          (λ v w. (q : Key) → Made (v q) (w q))
          (p.create backups (scheduled_backup clock now gs))
    unfolding scheduled_backup
    Runs-create = record {
      runs = λ s h q. l.create_backup_at (scheduled_backup clock now gs) s q refl;
    }

    Runs-retain :
        (r : Reply AdminConfig)
        → Runs
            (stored_backups l)
            (λ v. Unit)
            (λ v w. (q : Key) → Removed (v q) (w q))
            (retain_with p t clock operator_namespace now gs r)
    unfolding retain_with
    Runs-retain (err e) = Runs-of_Leaves (λ v h q. inl refl) _ (Leaves-pure tt)
    Runs-retain (ok cfg) =
        Runs-then _ _
          (Runs-attempt _ (record {
            runs = λ s h.
                enforce_retention-removes l sl clock cl gs.meta.namespace gs.meta.name
                  (retention_count gs cfg.backup_retention_count) s;
          }))
          (λ r. Leaves-pure tt)

    Runs-make_scheduled :
        (next : Option ℕ → Option ℕ)
        → Runs
            (stored_backups l)
            (λ v. Unit)
            Turnovers
            (make_scheduled p t clock operator_namespace now gs next)
    unfolding make_scheduled
    Runs-make_scheduled next =
        Runs-seq {Mid = λ v. Unit} {Rest = λ v w. (q : Key) → Removed (v q) (w q)} (λ u v h k. tt)
          (λ u v w h first rest q. Turnover-seq (u q) (v q) (w q) (first q) (rest q))
          (λ u v h first q. Turnover-Made (u q) (v q) (first q)) _ _ (Runs-attempt _ Runs-create)
          (λ created.
            Runs-bind (λ v h q. inl refl) _ _ (backups-after_create created)
              (λ u.
                Runs-bind (λ v h q. inl refl) _ _
                  (Leaves-wrapping "failed to re-fetch GameServer" _
                    (backups-get l game_servers (key_of gs.meta)))
                  (λ fresh.
                    Runs-bind (λ v h q. inl refl) _ _
                      (Leaves-wrapping "failed to update last backup time" _
                        (backups-update_server l (with_last_backup clock now gs fresh)))
                      (λ u.
                        Runs-bind (λ v h q. inl refl) _ _
                          (Leaves-attempt _
                            (backups-load_admin_config l (operator_ns operator_namespace)))
                          (λ config. Runs-then _ _ (Runs-retain config) (λ u. Leaves-pure _))))))

    Runs-with_schedule :
        (schedule : Reply (Option ℕ → Option ℕ))
        → Runs
            (stored_backups l)
            (λ v. Unit)
            Turnovers
            (with_schedule p t clock operator_namespace now gs schedule)
    unfolding with_schedule
    Runs-with_schedule (err e) = Runs-of_Leaves (Turnovers-stay _) _ (Leaves-pure _)
    Runs-with_schedule (ok next) =
        Runs-if (is_before now (next (last_backup clock now gs))) _ _
          (λ _. Runs-of_Leaves (Turnovers-stay _) _ (Leaves-pure _)) (λ _. Runs-make_scheduled next)

    Runs-schedule :
        Runs
          (stored_backups l)
          (λ v. Unit)
          Turnovers
          (reconcile_game_server_schedule p t clock operator_namespace now gs)
    unfolding reconcile_game_server_schedule
    Runs-schedule =
        let schedule = text_at annotation_backup_schedule gs.meta.annotations in
        Runs-if (schedule == "") _ _ (λ _. Runs-of_Leaves (Turnovers-stay _) _ (Leaves-pure done))
          (λ _.
            Runs-if (is_running gs.status.state) _ _
              (λ _. Runs-with_schedule (clock.parse_schedule schedule))
              (λ _. Runs-of_Leaves (Turnovers-stay _) _ (Leaves-pure done)))

  Runs-scheduled_found :
      (r : Reply GameServer)
      → Runs
          (stored_backups l)
          (λ v. Unit)
          Turnovers
          (scheduled_found p t clock operator_namespace now r)
  unfolding scheduled_found
  Runs-scheduled_found (ok gs) = Runs-schedule gs
  Runs-scheduled_found (err e) =
      Runs-of_Leaves (Turnovers-stay _) _
        (Leaves-if (is_not_found e) _ _ (Leaves-pure _) (Leaves-fail _))

  Handles-dispatch :
      (backup : Backup) (cfg : AdminConfig) (state : BackupState)
      → backup.status.state ≡ state
      → Handles l backup (dispatch_backup p t clock operator_namespace now state backup cfg)
  unfolding dispatch_backup
  Handles-dispatch backup cfg BackupState.unset e = Handles-pending l now backup cfg (inl e)
  Handles-dispatch backup cfg pending e = Handles-pending l now backup cfg (inr e)
  Handles-dispatch backup cfg in_progress e =
      Handles-in_progress l sl operator_namespace clock now backup cfg e
  Handles-dispatch backup cfg _ e = Handles-quiet l now backup _ (Leaves-pure done)

  Handles-reconcile_backup :
      (backup : Backup)
      → Handles l backup (reconcile_backup p t clock operator_namespace now backup)
  unfolding reconcile_backup
  Handles-reconcile_backup backup =
      Runs-if (is_backup_terminal backup.status.state) _ _
        (λ _. Handles-quiet l now backup _ (Leaves-pure _))
        (λ _.
          Runs-bind (Changes-stay _) _ _
            (Leaves-wrapping "failed to load admin config" _
              (backups-load_admin_config l (operator_ns operator_namespace)))
            (λ cfg. Handles-dispatch backup cfg _ refl))

  Runs-backup_found :
      (key : Key) (s : S) (r : Reply Backup)
      → (p.get backups key s).0 ≡ r
      → Runs
          (stored_backups l)
          (λ v. v ≡ stored_backups l s)
          Changes
          (backup_found p t clock operator_namespace now r)
  unfolding backup_found
  Runs-backup_found key s (err e) h =
      Runs-of_Leaves (Changes-stay _) _
        (Leaves-if (is_not_found e) _ _ (Leaves-pure _) (Leaves-fail _))
  Runs-backup_found key s (ok backup) h =
      let (stored, own) = l.get_ok backups key s h in
      Runs-pre _
        (λ v start.
          ap (λ (w : Stored). w (key_of backup.meta)) start ∙ ap (stored_backups l s) own ∙ stored)
        (Handles-reconcile_backup backup)

  reconcile_scheduled-Turnovers :
      (key : Key) (server : String) (s : S)
      → Turnovers (stored_backups l s) (
          stored_backups l (reconcile_named p t clock operator_namespace now key (some server) s).1)
  unfolding reconcile_named attempt
  reconcile_scheduled-Turnovers key server s =
      (Runs-bind {Pre = λ v. Unit} (Turnovers-stay _) _ _
          (Leaves-attempt _
            (backups-get l game_servers (record { namespace = key.namespace; name = server })))
          Runs-scheduled_found).runs
        s tt

  reconcile_named-Changes :
      (key : Key) (server : Option String) (s : S)
      → Changes
          (stored_backups l s)
          (stored_backups l (reconcile_named p t clock operator_namespace now key server s).1)
  unfolding reconcile_named attempt
  reconcile_named-Changes key (some server) s =
      λ q. Turnover-Change _ _ (reconcile_scheduled-Turnovers key server s q)
  reconcile_named-Changes key none s =
      (Runs-bind_of {Pre = λ v. v ≡ stored_backups l s} (Changes-stay _) _ _
          (Leaves-attempt _ (backups-get l backups key))
          (λ s' r start e.
            Runs-pre _ (λ v h. h ∙ sym start) (Runs-backup_found key s' r (ok_inj e)))).runs
        s refl

  -- Whatever a request to the backup controller is, and whatever the API, the storage and the clock
  -- answer, what is stored of each backup afterwards is what was stored before; or only its status
  -- is another, whose state the table of transitions allows after the one before, or is Pending
  -- where there was none; or the backup is new and has no state; or it was completed and is gone.
  pub reconcile_changes_backups :
      (key : Key) (s : S) (q : Key)
      → Change
          (l.at backups s q)
          (l.at backups (reconcile_request p t clock operator_namespace now key s).1 q)
  unfolding reconcile_request
  reconcile_changes_backups key s q =
      reconcile_named-Changes key (without_prefix schedule_prefix key.name) s q

  -- A request whose name begins with the prefix of the schedules moves no backup, whether or not a
  -- game server has the rest of the name: what is stored under each key, that of a backup with the
  -- name of the request included, is kept, or is a new backup without a state, or was completed and
  -- is gone.
  pub reconcile_request-prefixed_backup :
      (namespace rest : String) (s : S) (q : Key)
      → Turnover (l.at backups s q) (
          l.at backups
            (reconcile_request p t clock operator_namespace now
              (record { namespace = namespace; name = schedule_prefix ++ rest })
              s).1
            q)
  unfolding reconcile_request
  reconcile_request-prefixed_backup namespace rest s q =
      rw (without_prefix-append schedule_prefix rest) (
        reconcile_scheduled-Turnovers
          (record { namespace = namespace; name = schedule_prefix ++ rest }) rest s q)
