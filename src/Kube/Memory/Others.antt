-- ===== src/Kube/Memory/Others.antt =====
-- A write leaves the objects of its kind under other keys.
use kterodactyl.Prelude.{
  ℕ, ◌≡◌, ◌≢◌, refl, ap, sym, ◌∙◌, ◌⊎◌, inl, inr, Option, List, Bool-cases, Option-cases, none,
  some,
}
use kterodactyl.Kube.Errors.{ok_inj, ok, err, already_exists}
use kterodactyl.Kube.Meta.{Key, key_of}
use kterodactyl.Kube.Objects.{GameServer, Secret, Kind, game_servers, secrets, Object, meta_of}
use kterodactyl.Kube.Memory.Store.{same_key_iff, find-put, find-remove, objects-with_objects}
use kterodactyl.Kube.Memory.Objects.{stored}
use kterodactyl.Kube.Memory.{
  Memory, objects, same_key, find, put, remove, create, delete, is_finalized, update_server,
}

module _ (k : Kind) (q : Key) where
  put_elsewhere :
      (o : Object k) (os : List (Object k))
      → q ≢ key_of (meta_of k o)
      → find k q (put k o os) ≡ find k q os
  put_elsewhere o os n = elim (Bool-cases (same_key (key_of (meta_of k o)) q)) [
    | inl e ↦ absurd (n (sym ((same_key_iff _ q).0 e)))
    | inr e ↦ find-put k o os q ∙ rw e refl
  ]

  remove_elsewhere :
      (gone : Key) (os : List (Object k)) → q ≢ gone → find k q (remove k gone os) ≡ find k q os
  remove_elsewhere gone os n = elim (Bool-cases (same_key gone q)) [
    | inl e ↦ absurd (n (sym ((same_key_iff gone q).0 e)))
    | inr e ↦ find-remove k gone os q ∙ rw e refl
  ]

  pub create_other :
      (o : Object k) (m : Memory)
      → q ≢ key_of (meta_of k o)
      → stored k (create k o m).1 q ≡ stored k m q
  unfolding create
  create_other o m n = elim (Option-cases (find k (key_of (meta_of k o)) (objects k m))) [
    | inl e ↦
        rw (e, create)
          (ap (find k q) (objects-with_objects k (put k o (objects k m)) m)
            ∙ put_elsewhere o (objects k m) n)
    | inr (x, e) ↦ rw (e, create) refl
  ]

  pub delete_other :
      (o : Object k) (grace : Option ℕ) (m : Memory)
      → q ≢ key_of (meta_of k o)
      → stored k (delete k o grace m).1 q ≡ stored k m q
  unfolding delete
  delete_other o grace m n = elim (Option-cases (find k (key_of (meta_of k o)) (objects k m))) [
    | inl e ↦ rw (e, delete) refl
    | inr (x, e) ↦
        rw (e, delete)
          (ap (find k q) (objects-with_objects k (remove k (key_of (meta_of k o)) (objects k m)) m)
            ∙ remove_elsewhere (key_of (meta_of k o)) (objects k m) n)
  ]

pub create_key :
    (k : Kind) (o : Object k) (m : Memory) {o' : Object k}
    → (create k o m).0 ≡ ok o'
    → key_of (meta_of k o') ≡ key_of (meta_of k o)
unfolding create
create_key k o m {o'} h = elim (Option-cases (find k (key_of (meta_of k o)) (objects k m))) [
  | inl e ↦
      let same : ok o ≡ ok o' = rw (e, create) at h in
      ap (λ x. key_of (meta_of k x)) (sym (ok_inj same))
  | inr (x, e) ↦ let bad : err already_exists ≡ ok o' = rw (e, create) at h in cc
]

-- What `update` leaves in place of the servers.
updated :
    (o : GameServer) (m : Memory) (q : Key)
    → q ≢ key_of o.meta
    → stored game_servers (update_server o m).1 q ≡ stored game_servers m q
unfolding update_server
updated o m q n = elim (Option-cases (find game_servers (key_of o.meta) m.stored_game_servers)) [
  | inl e ↦ rw (e, update_server) refl
  | inr (old, e) ↦ elim (Bool-cases (is_finalized o.meta)) [
    | inl f ↦
        rw (e, f, update_server)
          (remove_elsewhere game_servers q (key_of o.meta) m.stored_game_servers n)
    | inr f ↦
        rw (e, f, update_server)
          (put_elsewhere game_servers q (record o { status = old.status }) m.stored_game_servers n)
  ]
]

pub update_frame :
    (o : GameServer) (m : Memory) (j : Kind) (q : Key)
    → (j ≢ game_servers) ⊎ (q ≢ key_of o.meta)
    → stored j (update_server o m).1 q ≡ stored j m q
unfolding update_server
update_frame o m game_servers q (inl n) = absurd (n refl)
update_frame o m game_servers q (inr n) = updated o m q n
update_frame o m j q _ =
    elim (Option-cases (find game_servers (key_of o.meta) m.stored_game_servers)) [
      | inl e ↦ rw (e, update_server) refl
      | inr (old, e) ↦ elim (Bool-cases (is_finalized o.meta)) [
        | inl f ↦ rw (e, f, update_server) refl
        | inr f ↦ rw (e, f, update_server) refl
      ]
    ]

pub create_secret_ok :
    (o : Secret) (m : Memory) {o' : Secret}
    → (create secrets o m).0 ≡ ok o'
    → (stored secrets m (key_of o.meta) ≡ none)
      × ((new : Secret) × (stored secrets (create secrets o m).1 (key_of o.meta) ≡ some new)
          × (new.meta.labels ≡ o.meta.labels)
          × (new.entries ≡ o.entries))
unfolding create
create_secret_ok o m h = elim (Option-cases (find secrets (key_of o.meta) m.stored_secrets)) [
  | inl e ↦ (
    e,
    (
      o,
      rw (e, create)
          (find-put secrets o m.stored_secrets (key_of o.meta)
            ∙ rw ((same_key_iff (key_of o.meta) (key_of o.meta)).1 refl) refl),
      refl,
      refl,
    ),
  )
  | inr (x, e) ↦ let bad : err already_exists ≡ ok _ = rw (e, create) at h in cc
]
