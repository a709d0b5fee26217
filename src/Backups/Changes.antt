-- ===== src/Backups/Changes.antt =====
-- What may happen to a stored backup, and the writes of its status.
use mathlib.Core.Path.{fun_ext}
use kterodactyl.Prelude.{
  String, ◌≡◌, refl, sym, ap, ◌∙◌, subst, ◌⊎◌, inl, inr, true, Option, none, some, some_inj,
}
use kterodactyl.Lifecycle.{BackupState, pending, completed, is_backup_valid_transition}
use kterodactyl.Kube.Errors.{ok}
use kterodactyl.Kube.Meta.{Key, key_of}
use kterodactyl.Kube.Objects.{BackupStatus, Backup, backups}
use kterodactyl.Kube.Exec.{Exec, wrapping, ◌>>=◌}
use kterodactyl.Kube.Exec.Leaves.{Leaves, Leaves-wrapping}
use kterodactyl.Kube.Exec.Results.{wrapping-eq-ok}
use kterodactyl.Kube.Exec.Runs.{Runs, Runs-wrapping, Runs-bind_of, Runs-then}
use kterodactyl.Kube.Platform.{Platform, Laws}
use kterodactyl.Kube.Platform.Frame.{stored_at, Leaves-get}
use kterodactyl.Controller.Reconcile.{Result}

abbrev pub IsBackupStep : BackupState → BackupState → Type 0
IsBackupStep from to =
    (is_backup_valid_transition from to ≡ true) ⊎ ((from ≡ BackupState.unset) × (to ≡ pending))

-- what may happen to what is stored under one key
pub data Change (before after : Option Backup) : Type 0 where
  same : after ≡ before → Change before after
  moved :
      (old : Backup) (status : BackupStatus)
      → before ≡ some old
      → after ≡ some (record old { status = status })
      → IsBackupStep old.status.state status.state
      → Change before after
  made :
      (new : Backup)
      → before ≡ none
      → after ≡ some new
      → new.status.state ≡ BackupState.unset
      → Change before after
  removed :
      (old : Backup)
      → before ≡ some old
      → old.status.state ≡ completed
      → after ≡ none
      → Change before after

-- A change that moves no status: what is stored is kept, or new, or completed and gone.
abbrev pub Turnover : Option Backup → Option Backup → Type 0
Turnover before after =
    (after ≡ before)
    ⊎ ((before ≡ none)
        × ((new : Backup) × (after ≡ some new) × (new.status.state ≡ BackupState.unset)))
    ⊎ ((old : Backup) × (before ≡ some old) × (old.status.state ≡ completed) × (after ≡ none))

pub Turnover-Change : (before after : Option Backup) → Turnover before after → Change before after
Turnover-Change before after (inl e) = same e
Turnover-Change before after (inr (inl (h, (new, e, c)))) = made new h e c
Turnover-Change before after (inr (inr (old, h, c, e))) = removed old h c e

abbrev pub Stored : Type 0
Stored = Key → Option Backup

abbrev pub Changes : Stored → Stored → Type 0
Changes v w = (q : Key) → Change (v q) (w q)

abbrev pub Turnovers : Stored → Stored → Type 0
Turnovers v w = (q : Key) → Turnover (v q) (w q)

module _ {S : Type 0} {p : Platform S} (l : Laws p) where
  abbrev pub stored_backups : S → Stored
  stored_backups s q = l.at backups s q

  pub Leaves-every :
      {A : Type 0} (m : Exec S A)
      → ((q : Key) → Leaves (stored_at l backups q) m)
      → Leaves stored_backups m
  Leaves-every m k = record { same_view = λ s. fun_ext (λ q. (k q).same_view s) }

  -- `backup` is what is stored
  abbrev pub Holds : Backup → Stored → Type 0
  Holds backup v = v (key_of backup.meta) ≡ some backup

  -- a block that may change the stored backups, of which it has read `backup`
  abbrev pub Handles : {A : Type 0} → Backup → Exec S A → Type 0
  Handles backup m = Runs stored_backups (Holds backup) Changes m

pub Turnovers-stay : (P : Stored → Type 0) (v : Stored) → P v → Turnovers v v
Turnovers-stay P v h q = inl refl

pub Changes-stay : (P : Stored → Type 0) (v : Stored) → P v → Changes v v
Changes-stay P v h q = same refl

module _ {S : Type 0} {p : Platform S} (l : Laws p) (backup : Backup) where
  -- A status update of the backup that was read, with an allowed state.
  pub Handles-update_status :
      (o : Backup)
      → key_of o.meta ≡ key_of backup.meta
      → IsBackupStep backup.status.state o.status.state
      → Handles l backup (p.update_status backups o)
  Handles-update_status o e step = record {
    runs = λ s held q. elim (l.backup_status_at o s q) [
      | inl kept ↦ same kept
      | inr (at_q, (old, before, after)) ↦
          let own : backup ≡ old =
            some_inj (sym held ∙ ap (l.at backups s) (sym (at_q ∙ e)) ∙ before) in
          moved old o.status before after
            (subst (λ (b : Backup). IsBackupStep b.status.state o.status.state) own step)
    ];
  }

  -- The object that is read anew is the one that was read.
  reread :
      (s : S) (fresh : Backup) (context : String)
      → Holds l backup (stored_backups l s)
      → (wrapping context (p.get backups (key_of backup.meta)) s).0 ≡ ok fresh
      → fresh ≡ backup
  reread s fresh context held h =
      let read = wrapping-eq-ok context (p.get backups (key_of backup.meta)) s h in
      some_inj (sym (l.get_ok backups (key_of backup.meta) s read).0 ∙ held)

  -- Read anew, write a status with an allowed state, and do what changes no backup.
  pub Handles-rewrite :
      (context wrong : String) (f : Backup → Backup) (rest : Backup → Exec S Result)
      → ((b : Backup) → (f b).meta ≡ b.meta)
      → IsBackupStep backup.status.state (f backup).status.state
      → ((b : Backup) → Leaves (stored_backups l) (rest b))
      → Handles l backup (
          wrapping context (p.get backups (key_of backup.meta)) >>= λ fresh.
          wrapping wrong (p.update_status backups (f fresh)) >>= rest)
  Handles-rewrite context wrong f rest keeps step after =
      Runs-bind_of (Changes-stay _) _ _
        (Leaves-wrapping context _
          (Leaves-every l _ (λ q. Leaves-get l backups q backups (key_of backup.meta))))
        λ s fresh held read.
          subst (λ b. Handles l backup (wrapping wrong (p.update_status backups (f b)) >>= rest))
            (sym (reread s fresh context held read))
            (Runs-then _ _
              (Runs-wrapping wrong _
                (Handles-update_status (f backup) (ap key_of (keeps backup)) step))
              after)
