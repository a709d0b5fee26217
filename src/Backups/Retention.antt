-- ===== src/Backups/Retention.antt =====
-- `enforceRetention` of internal/controller/backup_controller.go. Errors of a deletion are only
-- logged.
use kterodactyl.Prelude.{
  ℕ, ℤ, zero, suc, pos, negsuc, String, ◌==◌, Bool, true, false, not, ◌&&◌, Option, none, some,
  List, [], ◌∷◌, length, drop, ltb, leb, if◌then◌else◌,
}
use kterodactyl.Labels.{label_backup_game_server}
use kterodactyl.Lifecycle.{completed, same_backup_state}
use kterodactyl.Kube.Objects.{Backup, backups}
use kterodactyl.Kube.Exec.{Exec, pure, wrapping, attempt, ◌>>=◌, ◌>>◌}
use kterodactyl.Kube.Platform.{Platform}
use kterodactyl.Backups.Storage.{Storage, Clock}

-- the loop that keeps the completed backups
unfoldable pub completed_of : List Backup → List Backup
unfolding same_backup_state
completed_of [] = []
completed_of (b ∷ items) =
    let rest = completed_of items in
    if same_backup_state b.status.state completed then b ∷ rest else rest

-- `Time.After`
unfoldable pub time_after : Option ℕ → Option ℕ → Bool
time_after (some a) (some b) = ltb b a
time_after (some a) none = true
time_after none _ = false

-- the order given to `sort.Slice`
unfoldable pub is_newer : Backup → Backup → Bool
unfolding time_after
is_newer a b = time_after a.meta.creation_timestamp b.meta.creation_timestamp

-- the backups to delete, those that the last loop runs through, from the listed ones and the number
-- to keep
unfoldable pub expired : Clock → ℕ → List Backup → List Backup
unfolding completed_of is_newer
expired clock max_count items =
    let done = completed_of items in
    if leb (length done) max_count then [] else drop max_count (clock.sort_slice is_newer done)

module _ {S C R : Type 0} (p : Platform S) (t : Storage S C R) (clock : Clock) where
  -- the stored bytes go first, if the status names them and there is a client
  unfoldable pub remove_stored : Backup → Option (C × String) → Exec S (Unit {0})
  remove_stored old none = pure tt
  remove_stored old (some (client, bucket)) =
      if not (old.status.s3_key == "") && not (old.status.s3_bucket == "")
      then (do attempt (t.remove_object client old.status.s3_bucket old.status.s3_key); pure tt)
      else pure tt

  unfoldable pub delete_backup : Backup → Exec S (Unit {0})
  unfolding remove_stored
  delete_backup old = do
    λ s. remove_stored old (t.cached s) s
    attempt (p.delete backups old none)
    pure tt

  unfoldable pub delete_each : List Backup → Exec S (Unit {0})
  unfolding delete_backup
  delete_each [] = pure tt
  delete_each (old ∷ rest) = do delete_backup old; delete_each rest

  unfoldable pub enforce_retention : String → String → ℤ → Exec S (Unit {0})
  unfolding expired delete_each
  enforce_retention namespace name (negsuc n) = pure tt
  enforce_retention namespace name (pos zero) = pure tt
  enforce_retention namespace name (pos (suc n)) = do
    items ←
        wrapping "failed to list backups for retention"
          (p.list backups (some namespace) ((label_backup_game_server, name) ∷ []))
    delete_each (expired clock (suc n) items)
