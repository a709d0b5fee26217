-- ===== src/Examples/Lifecycle.antt =====
-- The tables of api/v1alpha1 at concrete states.
use kterodactyl.Prelude.{ℕ, refl, ◌≤◌, ◌≡◌, true}
use kterodactyl.Lifecycle.{allocated, error, pending, in_progress, failed}
use kterodactyl.Lifecycle.Graph.{
  ◌⟶*◌, start, then, lifecycle_connected, BackupRun, BackupRun_bounded,
}
use kterodactyl.Lifecycle.{is_backup_valid_transition, is_backup_terminal}

lifecycle_connected_example : error ⟶* allocated
lifecycle_connected_example = lifecycle_connected error allocated tt tt

abbrev failed_run : BackupRun pending 2 failed
unfolding is_backup_valid_transition
failed_run = then {b = in_progress} (then {b = pending} start refl) refl

BackupRun_bounded_example : let n : ℕ = 2 in (n ≤ 2) × (is_backup_terminal pending ≡ true → n ≡ 0)
BackupRun_bounded_example = BackupRun_bounded failed_run
