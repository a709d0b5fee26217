-- ===== src/Kube/Memory/Secrets.antt =====
-- What a deletion does to the stored secrets.
use kterodactyl.Prelude.{
  ℕ, ◌≡◌, refl, sym, ◌∙◌, ◌⊎◌, inl, inr, Option, none, Bool-cases, Option-cases,
}
use kterodactyl.Kube.Errors.{ok, err}
use kterodactyl.Kube.Meta.{Key, key_of}
use kterodactyl.Kube.Objects.{Secret, secrets}
use kterodactyl.Kube.Memory.{Memory, find, same_key, delete}
use kterodactyl.Kube.Memory.Objects.{stored}
use kterodactyl.Kube.Memory.Store.{same_key_iff, find-remove}

pub delete_secret_at :
    (o : Secret) (grace : Option ℕ) (m : Memory) (q : Key)
    → (stored secrets (delete secrets o grace m).1 q ≡ stored secrets m q)
      ⊎ ((q ≡ key_of o.meta) × (stored secrets (delete secrets o grace m).1 q ≡ none))
unfolding delete
delete_secret_at o grace m q = elim (Option-cases (find secrets (key_of o.meta) m.stored_secrets)) [
  | inl e ↦ inl (rw (e, delete))
  | inr (x, e) ↦ elim (Bool-cases (same_key (key_of o.meta) q)) [
    | inl here ↦ inr (
      sym ((same_key_iff (key_of o.meta) q).0 here),
      rw (e, delete) (find-remove secrets (key_of o.meta) m.stored_secrets q ∙ rw here),
    )
    | inr away ↦
        inl (rw (e, delete) (find-remove secrets (key_of o.meta) m.stored_secrets q ∙ rw away))
  ]
]

pub delete_secret_ok :
    (o : Secret) (grace : Option ℕ) (m : Memory) {u : Unit {0}}
    → (delete secrets o grace m).0 ≡ ok u
    → stored secrets (delete secrets o grace m).1 (key_of o.meta) ≡ none
unfolding delete
delete_secret_ok o grace m {u = u} h =
    elim (Option-cases (find secrets (key_of o.meta) m.stored_secrets)) [
      | inl e ↦ (let bad : err _ ≡ ok u = rw (e, delete) at h in cc)
      | inr (x, e) ↦
          rw (e, delete)
            (find-remove secrets (key_of o.meta) m.stored_secrets (key_of o.meta)
              ∙ rw ((same_key_iff (key_of o.meta) (key_of o.meta)).1 refl))
    ]
