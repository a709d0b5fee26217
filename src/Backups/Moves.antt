-- ===== src/Backups/Moves.antt =====
-- The changes that a reconciliation of a backup makes to the stored backups.
use kterodactyl.Prelude.{
  ℕ, String, ◌==◌, ◌≡◌, refl, ◌⊎◌, inl, inr, true, false, Option, none, some, List, [], ◌∷◌, Dict,
}
use kterodactyl.Labels.{label_backup_game_server}
use kterodactyl.Lifecycle.{
  BackupState, pending, in_progress, failed, same_backup_state, is_backup_valid_transition,
}
use kterodactyl.Kube.Errors.{Piece, Reply, ok, err, is_not_found}
use kterodactyl.Kube.Meta.{Key, Meta}
use kterodactyl.Kube.Objects.{GameServer, game_servers, Backup, Kind, backups}
use kterodactyl.Kube.Exec.{Exec, modify}
use kterodactyl.Kube.Exec.Leaves.{
  Leaves, Leaves-pure, Leaves-fail, Leaves-wrapping, Leaves-attempt, Leaves-bind,
}
use kterodactyl.Kube.Exec.Runs.{Runs-if, Runs-of_Leaves, Runs-bind}
use kterodactyl.Kube.Platform.{Platform, Laws}
use kterodactyl.Kube.Platform.Frame.{Leaves-get, Leaves-list, Leaves-event}
use kterodactyl.Controller.Config.{AdminConfig}
use kterodactyl.Controller.Reconcile.{Result}
use kterodactyl.Backups.Status.{transition_backup_state, with_backup_state, with_started}
use kterodactyl.Backups.Running.{
  is_running, other_in_progress, server_key_of, fail_backup, server_of, start_backup, start_unless,
  pending_with, reconcile_pending,
}
use kterodactyl.Backups.Changes.{
  IsBackupStep, Handles, Changes-stay, Leaves-every, stored_backups, Handles-rewrite,
}

-- Calls of the platform, as they leave all backups.
module _ {S : Type 0} {p : Platform S} (l : Laws p) where
  pub backups-get : (k : Kind) (key : Key) → Leaves (stored_backups l) (p.get k key)
  backups-get k key = Leaves-every l _ (λ q. Leaves-get l backups q k key)

  pub backups-list :
      (k : Kind) (ns : Option String) (ls : Dict String)
      → Leaves (stored_backups l) (p.list k ns ls)
  backups-list k ns ls = Leaves-every l _ (λ q. Leaves-list l backups q k ns ls)

  pub backups-event :
      (m : Meta) (type reason : String) (message : List Piece)
      → Leaves (stored_backups l) (modify (p.event m type reason message))
  backups-event m type reason message =
      Leaves-every l _ (λ q. Leaves-event l backups q m type reason message)

module _ {S : Type 0} {p : Platform S} (l : Laws p) (now : ℕ) (backup : Backup) where
  pub Handles-quiet : {A : Type 0} (m : Exec S A) → Leaves (stored_backups l) m → Handles l backup m
  Handles-quiet m k = Runs-of_Leaves (Changes-stay _) m k

  pub Handles-transition :
      (new : BackupState) (reason : String) (message : List Piece)
      → IsBackupStep backup.status.state new
      → Handles l backup (transition_backup_state p now backup new reason message)
  unfolding transition_backup_state
  Handles-transition new reason message step =
      Handles-rewrite l backup _ _ (with_backup_state p now new reason message) _ (λ b. refl) step
        (λ b. Leaves-bind _ _ (backups-event l _ _ _ _) (λ u. Leaves-pure _))

  pub Handles-fail :
      is_backup_valid_transition backup.status.state failed ≡ true
      → (reason : String) (message : List Piece)
      → Handles l backup (fail_backup p now backup reason message)
  unfolding fail_backup
  Handles-fail can_fail reason message = Handles-transition failed reason message (inl can_fail)

  pub Handles-server_of :
      (next : GameServer → Exec S Result)
      → is_backup_valid_transition backup.status.state failed ≡ true
      → ((gs : GameServer) → Handles l backup (next gs))
      → (r : Reply GameServer) → Handles l backup (server_of p now backup next r)
  unfolding server_of
  Handles-server_of next can_fail h (ok gs) = h gs
  Handles-server_of next can_fail h (err e) =
      Runs-if (is_not_found e) _ _ (λ _. Handles-fail can_fail _ _)
        (λ _. Handles-quiet _ (Leaves-fail _))

  Handles-start :
      is_backup_valid_transition backup.status.state in_progress ≡ true
      → Handles l backup (start_backup p now backup)
  unfolding start_backup
  Handles-start can_start =
      Handles-rewrite l backup _ _ (with_started p now) _ (λ b. refl) (inl can_start)
        (λ b. Leaves-bind _ _ (backups-event l _ _ _ _) (λ u. Leaves-pure _))

  module _ (is_pending : backup.status.state ≡ pending) where
    can_fail : is_backup_valid_transition backup.status.state failed ≡ true
    unfolding is_backup_valid_transition
    can_fail = rw is_pending

    Handles-start_unless :
        (other : Option String) → Handles l backup (start_unless p now backup other)
    unfolding start_unless is_backup_valid_transition
    Handles-start_unless none = Handles-start (rw is_pending)
    Handles-start_unless (some other) = Handles-fail can_fail _ _

    Handles-pending_with : (gs : GameServer) → Handles l backup (pending_with p now backup gs)
    unfolding pending_with
    Handles-pending_with gs =
        Runs-if (is_running gs.status.state) _ _
          (λ _.
            Runs-bind (Changes-stay _) _ _
              (Leaves-wrapping "failed to list backups" _ (
                backups-list l backups (some backup.meta.namespace)
                  ((label_backup_game_server, backup.spec.game_server_name) ∷ [])))
              (λ items. Handles-start_unless (other_in_progress backup.meta.name items)))
          (λ _. Handles-fail can_fail _ _)

  pub Handles-pending :
      (cfg : AdminConfig)
      → (backup.status.state ≡ BackupState.unset) ⊎ (backup.status.state ≡ pending)
      → Handles l backup (reconcile_pending p now backup cfg)
  unfolding reconcile_pending
  Handles-pending cfg (inl e) =
      Runs-if (same_backup_state backup.status.state BackupState.unset) _ _
        (λ _. Handles-transition pending _ _ (inr (e, refl)))
        (λ n. let bad : true ≡ false = rw e at n in absurd (cc))
  Handles-pending cfg (inr e) =
      Runs-if (same_backup_state backup.status.state BackupState.unset) _ _
        (λ y. let bad : false ≡ true = rw e at y in absurd (cc))
        (λ _.
          Runs-if (cfg.backup_s3_endpoint == "") _ _ (λ _. Handles-fail (can_fail e) _ _)
            (λ _.
              Runs-bind (Changes-stay _) _ _
                (Leaves-attempt _ (backups-get l game_servers (server_key_of backup)))
                (λ r. Handles-server_of _ (can_fail e) (Handles-pending_with e) r)))
