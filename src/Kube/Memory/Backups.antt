-- ===== src/Kube/Memory/Backups.antt =====
-- What a creation and a deletion of a backup do to the stored backups.
use kterodactyl.Prelude.{
  ℕ, ◌≡◌, refl, ap, sym, ◌∙◌, ◌⊎◌, inl, inr, Option, none, some, Bool-cases, Option-cases,
}
use kterodactyl.Kube.Meta.{Key, key_of}
use kterodactyl.Kube.Objects.{Backup, backups}
use kterodactyl.Kube.Memory.{Memory, find, same_key, create, delete}
use kterodactyl.Kube.Memory.Objects.{stored}
use kterodactyl.Kube.Memory.Store.{same_key_iff, find-put, find-remove}

pub create_backup_at :
    (o : Backup) (m : Memory) (q : Key)
    → (stored backups (create backups o m).1 q ≡ stored backups m q)
      ⊎ ((stored backups m q ≡ none)
          × ((new : Backup) × (stored backups (create backups o m).1 q ≡ some new)
              × (new.status ≡ o.status)))
unfolding create
create_backup_at o m q = elim (Option-cases (find backups (key_of o.meta) m.stored_backups)) [
  | inl e ↦ elim (Bool-cases (same_key (key_of o.meta) q)) [
    | inl here ↦
        let at_q = (same_key_iff (key_of o.meta) q).0 here in
        inr (
          ap (λ x. find backups x m.stored_backups) (sym at_q) ∙ e,
          (o, rw (e, create) (find-put backups o m.stored_backups q ∙ rw here), refl),
        )
    | inr away ↦ inl (rw (e, create) (find-put backups o m.stored_backups q ∙ rw away))
  ]
  | inr (x, e) ↦ inl (rw (e, create))
]

pub delete_backup_at :
    (o : Backup) (grace : Option ℕ) (m : Memory) (q : Key)
    → (stored backups (delete backups o grace m).1 q ≡ stored backups m q)
      ⊎ ((q ≡ key_of o.meta) × (stored backups (delete backups o grace m).1 q ≡ none))
unfolding delete
delete_backup_at o grace m q = elim (Option-cases (find backups (key_of o.meta) m.stored_backups)) [
  | inl e ↦ inl (rw (e, delete))
  | inr (x, e) ↦ elim (Bool-cases (same_key (key_of o.meta) q)) [
    | inl here ↦ inr (
      sym ((same_key_iff (key_of o.meta) q).0 here),
      rw (e, delete) (find-remove backups (key_of o.meta) m.stored_backups q ∙ rw here),
    )
    | inr away ↦
        inl (rw (e, delete) (find-remove backups (key_of o.meta) m.stored_backups q ∙ rw away))
  ]
]
