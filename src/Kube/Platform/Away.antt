-- ===== src/Kube/Platform/Away.antt =====
-- Writes of a backup leave every object under another key.
use kterodactyl.Prelude.{ℕ, Option, ◌≡◌, ◌≢◌, inl, inr}
use kterodactyl.Kube.Meta.{Key, key_of}
use kterodactyl.Kube.Objects.{Backup, backups, Kind}
use kterodactyl.Kube.Exec.Leaves.{Leaves}
use kterodactyl.Kube.Platform.{Platform, Laws}
use kterodactyl.Kube.Platform.Frame.{stored_at}

module _ {S : Type 0} {p : Platform S} (l : Laws p) where
  created_away :
      (j : Kind) (q : Key) (o : Backup) (s : S)
      → q ≢ key_of o.meta
      → l.at j (p.create backups o s).1 q ≡ l.at j s q
  created_away backups q o s n = l.create_other backups o s q n
  created_away j q o s n = l.create_frame backups o s j q (λ e. cc)

  deleted_away :
      (j : Kind) (q : Key) (o : Backup) (grace : Option ℕ) (s : S)
      → q ≢ key_of o.meta
      → l.at j (p.delete backups o grace s).1 q ≡ l.at j s q
  deleted_away backups q o grace s n = l.delete_other backups o grace s q n
  deleted_away j q o grace s n = l.delete_frame backups o grace s j q (λ e. cc)

  status_away :
      (j : Kind) (q : Key) (o : Backup) (s : S)
      → q ≢ key_of o.meta
      → l.at j (p.update_status backups o s).1 q ≡ l.at j s q
  status_away backups q o s n = elim (l.backup_status_at o s q) [
    | inl same ↦ same
    | inr (here, written) ↦ absurd (n here)
  ]
  status_away j q o s n = l.backup_status_frame o s j q (λ e. cc)

module _ {S : Type 0} {p : Platform S} (l : Laws p) (j : Kind) (q : Key) (o : Backup)
    (n : q ≢ key_of o.meta) where
  pub Leaves-create_away : Leaves (stored_at l j q) (p.create backups o)
  Leaves-create_away = record { same_view = λ s. created_away l j q o s n }

  pub Leaves-delete_away : (grace : Option ℕ) → Leaves (stored_at l j q) (p.delete backups o grace)
  Leaves-delete_away grace = record { same_view = λ s. deleted_away l j q o grace s n }

  pub Leaves-status_away : Leaves (stored_at l j q) (p.update_status backups o)
  Leaves-status_away = record { same_view = λ s. status_away l j q o s n }
