-- ===== src/Backups/Finishing.antt =====
-- The changes that the reconciliation of a running backup makes to the stored backups.
use kterodactyl.Prelude.{ℕ, ℤ, String, ◌≡◌, refl, inl, Bool, true, false}
use kterodactyl.Lifecycle.{in_progress, completed, failed, is_backup_valid_transition}
use kterodactyl.Kube.Errors.{Reply, ok, err}
use kterodactyl.Kube.Objects.{GameServer, game_servers, Backup, backups}
use kterodactyl.Kube.Exec.Leaves.{Leaves-pure, Leaves-attempt, Leaves-bind}
use kterodactyl.Kube.Exec.Runs.{Runs-if, Runs-bind}
use kterodactyl.Kube.Platform.{Platform, Laws}
use kterodactyl.Controller.Config.{AdminConfig}
use kterodactyl.Backups.Storage.{Storage, Clock, StorageLaws}
use kterodactyl.Backups.Status.{with_completed}
use kterodactyl.Backups.Running.{
  is_running, server_key_of, complete_backup, finish_backup, upload_backup, after_make, with_bucket,
  with_client, in_progress_with, reconcile_in_progress,
}
use kterodactyl.Backups.Changes.{Handles, Changes-stay, Leaves-every, Handles-rewrite}
use kterodactyl.Backups.Frame.{Leaves-perform_backup, Leaves-ensure_s3_client}
use kterodactyl.Backups.Moves.{backups-get, backups-event, Handles-fail, Handles-server_of}

module _ {S C R : Type 0} {p : Platform S} (l : Laws p) {t : Storage S C R} (sl : StorageLaws l t)
    (operator_namespace : String) where
  module _ (clock : Clock) (now : ℕ) (backup : Backup) (cfg : AdminConfig)
      (running : backup.status.state ≡ in_progress) where
    fails : is_backup_valid_transition backup.status.state failed ≡ true
    unfolding is_backup_valid_transition
    fails = rw running

    completes : is_backup_valid_transition backup.status.state completed ≡ true
    unfolding is_backup_valid_transition
    completes = rw running

    Handles-finish :
        (gs : GameServer) (bucket key : String) (r : Reply ℤ)
        → Handles l backup
            (finish_backup p t clock operator_namespace now backup cfg gs bucket key r)
    unfolding finish_backup complete_backup
    Handles-finish gs bucket key (err e) = Handles-fail l now backup fails _ _
    Handles-finish gs bucket key (ok size) =
        Handles-rewrite l backup _ _ (with_completed p now key bucket size) _ (λ b. refl)
          (inl completes) (λ b. Leaves-bind _ _ (backups-event l _ _ _ _) (λ u. Leaves-pure _))

    Handles-upload :
        (gs : GameServer) (c : C × String)
        → Handles l backup (upload_backup p t clock operator_namespace now backup cfg gs c)
    unfolding upload_backup
    Handles-upload gs (client, bucket) =
        Runs-bind (Changes-stay _) _ _
          (Leaves-attempt _ (
            Leaves-every l _
              (λ q. Leaves-perform_backup l sl operator_namespace backups q client bucket _ _ _ _)))
          (Handles-finish gs bucket _)

    Handles-after_make :
        (gs : GameServer) (c : C × String) (r : Reply (Unit {0}))
        → Handles l backup (after_make p t clock operator_namespace now backup cfg gs c r)
    unfolding after_make
    Handles-after_make gs c (ok u) = Handles-upload gs c
    Handles-after_make gs c (err e) = Handles-fail l now backup fails _ _

    Handles-with_bucket :
        (gs : GameServer) (c : C × String) (r : Reply Bool)
        → Handles l backup (with_bucket p t clock operator_namespace now backup cfg gs c r)
    unfolding with_bucket
    Handles-with_bucket gs c (ok true) = Handles-upload gs c
    Handles-with_bucket gs (client, bucket) (ok false) =
        Runs-bind (Changes-stay _) _ _
          (Leaves-attempt _ (
            Leaves-every l (t.make_bucket client bucket cfg.backup_s3_region) (λ q. record {
              same_view = λ s. sl.make_bucket_at client bucket cfg.backup_s3_region s backups q;
            })))
          (Handles-after_make gs (client, bucket))
    Handles-with_bucket gs c (err e) = Handles-fail l now backup fails _ _

    Handles-with_client :
        (gs : GameServer) (r : Reply (C × String))
        → Handles l backup (with_client p t clock operator_namespace now backup cfg gs r)
    unfolding with_client
    Handles-with_client gs (ok (client, bucket)) =
        Runs-bind (Changes-stay _) _ _
          (Leaves-attempt _ (
            Leaves-every l (t.bucket_exists client bucket)
              (λ q. record { same_view = λ s. sl.bucket_exists_at client bucket s backups q })))
          (Handles-with_bucket gs (client, bucket))
    Handles-with_client gs (err e) = Handles-fail l now backup fails _ _

    Handles-in_progress_with :
        (gs : GameServer)
        → Handles l backup (in_progress_with p t clock operator_namespace now backup cfg gs)
    unfolding in_progress_with
    Handles-in_progress_with gs =
        Runs-if (is_running gs.status.state) _ _
          (λ _.
            Runs-bind (Changes-stay _) _ _
              (Leaves-attempt _ (
                Leaves-every l _
                  (λ q. Leaves-ensure_s3_client l sl operator_namespace backups q cfg)))
              (Handles-with_client gs))
          (λ _. Handles-fail l now backup fails _ _)

    pub Handles-in_progress :
        Handles l backup (reconcile_in_progress p t clock operator_namespace now backup cfg)
    unfolding reconcile_in_progress
    Handles-in_progress =
        Runs-bind (Changes-stay _) _ _
          (Leaves-attempt _ (backups-get l game_servers (server_key_of backup)))
          (Handles-server_of l now backup _ fails Handles-in_progress_with)
