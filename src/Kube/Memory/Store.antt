-- ===== src/Kube/Memory/Store.antt =====
-- The lists of objects as maps from keys.
use kterodactyl.Prelude.{
  ◌≡◌, ◌≢◌, refl, subst, some_inj, ◌↔◌, true, none, some, List, [], ◌∷◌, arith, eq_iff, Bool-cases,
  inl, inr, if◌then◌else◌,
}
use kterodactyl.Kube.Meta.{Key, key_of}
use kterodactyl.Kube.Objects.{
  Kind, game_servers, pods, pvcs, all_namespaces, quotas, limit_ranges, network_policies,
  config_maps, secrets, backups, Object, meta_of,
}
use kterodactyl.Kube.Memory.{Memory, objects, with_objects, same_key, find, put, remove}

pub same_key_iff : (a b : Key) → (same_key a b ≡ true) ↔ (a ≡ b)
unfolding same_key
same_key_iff a b = ground (arith, eq_iff a.namespace b.namespace, eq_iff a.name b.name)

module _ (k : Kind) where
  pub key-find :
      (key : Key) (os : List (Object k)) {o : Object k}
      → find k key os ≡ some o
      → key_of (meta_of k o) ≡ key
  unfolding find
  key-find key [] h = cc
  key-find key (x ∷ xs) {o = o} h = elim (Bool-cases (same_key (key_of (meta_of k x)) key)) [
    | inl e ↦
        let same : some x ≡ some o = rw e at h in
        subst (λ y. key_of (meta_of k y) ≡ key) (some_inj same)
          ((same_key_iff (key_of (meta_of k x)) key).0 e)
    | inr e ↦ key-find key xs (rw e at h)
  ]

  pub find-put :
      (o : Object k) (os : List (Object k)) (key : Key)
      → find k key (put k o os)
        ≡ (if same_key (key_of (meta_of k o)) key then some o else find k key os)
  unfolding find put
  find-put o [] key = refl
  find-put o (x ∷ xs) key = ground (
    arith,
    same_key_iff (key_of (meta_of k x)) key,
    same_key_iff (key_of (meta_of k o)) key,
    same_key_iff (key_of (meta_of k x)) (key_of (meta_of k o)),
    find-put o xs key,
  )

  pub find-remove :
      (gone : Key) (os : List (Object k)) (key : Key)
      → find k key (remove k gone os) ≡ (if same_key gone key then none else find k key os)
  unfolding find remove
  find-remove gone [] key = ground arith
  find-remove gone (x ∷ xs) key = ground (
    arith,
    same_key_iff (key_of (meta_of k x)) key,
    same_key_iff (key_of (meta_of k x)) gone,
    same_key_iff gone key,
    find-remove gone xs key,
  )

pub objects-with_objects :
    (k : Kind) (os : List (Object k)) (m : Memory) → objects k (with_objects k os m) ≡ os
objects-with_objects game_servers os m = refl
objects-with_objects pods os m = refl
objects-with_objects pvcs os m = refl
objects-with_objects all_namespaces os m = refl
objects-with_objects quotas os m = refl
objects-with_objects limit_ranges os m = refl
objects-with_objects network_policies os m = refl
objects-with_objects config_maps os m = refl
objects-with_objects secrets os m = refl
objects-with_objects backups os m = refl

pub objects-with_other :
    (j k : Kind) (os : List (Object k)) (m : Memory)
    → j ≢ k
    → objects j (with_objects k os m) ≡ objects j m
objects-with_other game_servers game_servers os m n = absurd (n refl)
objects-with_other pods pods os m n = absurd (n refl)
objects-with_other pvcs pvcs os m n = absurd (n refl)
objects-with_other all_namespaces all_namespaces os m n = absurd (n refl)
objects-with_other quotas quotas os m n = absurd (n refl)
objects-with_other limit_ranges limit_ranges os m n = absurd (n refl)
objects-with_other network_policies network_policies os m n = absurd (n refl)
objects-with_other config_maps config_maps os m n = absurd (n refl)
objects-with_other secrets secrets os m n = absurd (n refl)
objects-with_other backups backups os m n = absurd (n refl)
objects-with_other _ _ os m n = refl
