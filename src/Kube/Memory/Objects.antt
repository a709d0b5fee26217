-- ===== src/Kube/Memory/Objects.antt =====
-- What a write does to the other objects, and to its own.
use kterodactyl.Prelude.{
  ℕ, String, ◌≡◌, ◌≢◌, refl, ap, sym, ◌∙◌, ◌⊎◌, inl, inr, Option, none, some, List, Bool-cases,
  Option-cases,
}
use kterodactyl.Kube.Errors.{Reply, ok, err}
use kterodactyl.Kube.Meta.{Key, key_of}
use kterodactyl.Kube.Objects.{Kind, Object, meta_of}
use kterodactyl.Kube.Memory.Store.{
  same_key_iff, key-find, find-put, objects-with_objects, objects-with_other,
}
use kterodactyl.Kube.Memory.{
  Memory, objects, same_key, find, put, found, get, create, delete, store_mutated, create_or_update,
}

abbrev pub stored : (k : Kind) → Memory → Key → Option (Object k)
stored k m key = find k key (objects k m)

found-eq-ok : (k : Kind) (x : Option (Object k)) {o : Object k} → found k x ≡ ok o → x ≡ some o
unfolding found
found-eq-ok k none h = cc
found-eq-ok k (some x) h = cc

pub get_ok :
    (k : Kind) (key : Key) (m : Memory) {o : Object k}
    → (get k key m).0 ≡ ok o
    → (stored k m key ≡ some o) × (key_of (meta_of k o) ≡ key)
unfolding get
get_ok k key m h =
    let e = found-eq-ok k (find k key (objects k m)) h in (e, key-find k key (objects k m) e)

pub create_frame :
    (k : Kind) (o : Object k) (m : Memory) (j : Kind) (q : Key)
    → j ≢ k
    → stored j (create k o m).1 q ≡ stored j m q
unfolding create
create_frame k o m j q n = elim (Option-cases (find k (key_of (meta_of k o)) (objects k m))) [
  | inl e ↦ rw (e, create) (ap (find j q) (objects-with_other j k _ m n))
  | inr (x, e) ↦ rw (e, create)
]

pub delete_frame :
    (k : Kind) (o : Object k) (grace : Option ℕ) (m : Memory) (j : Kind) (q : Key)
    → j ≢ k
    → stored j (delete k o grace m).1 q ≡ stored j m q
unfolding delete
delete_frame k o grace m j q n = elim (Option-cases (find k (key_of (meta_of k o)) (objects k m))) [
  | inl e ↦ rw (e, delete)
  | inr (x, e) ↦ rw (e, delete) (ap (find j q) (objects-with_other j k _ m n))
]

mutated_frame :
    (k : Kind) (o : Object k) (r : Reply (Object k)) (m : Memory) (j : Kind) (q : Key)
    → j ≢ k
    → stored j (store_mutated k o r m).1 q ≡ stored j m q
unfolding store_mutated
mutated_frame k o (err e) m j q n = refl
mutated_frame k o (ok new) m j q n =
    elim (Bool-cases (same_key (key_of (meta_of k new)) (key_of (meta_of k o)))) [
      | inl e ↦ rw e (ap (find j q) (objects-with_other j k _ m n))
      | inr e ↦ rw e
    ]

pub create_or_update_frame :
    (k : Kind) (o : Object k) (f : Object k → Reply (Object k)) (m : Memory) (j : Kind) (q : Key)
    → j ≢ k
    → stored j (create_or_update k o f m).1 q ≡ stored j m q
unfolding create_or_update
create_or_update_frame k o f m j q n =
    elim (Option-cases (find k (key_of (meta_of k o)) (objects k m))) [
      | inl e ↦ rw (e, create_or_update) (mutated_frame k o (f o) m j q n)
      | inr (x, e) ↦ rw (e, create_or_update) (mutated_frame k o (f x) m j q n)
    ]

-- the object under the key of a write, after it
found_after :
    (k : Kind) (new : Object k) (os : List (Object k)) (key : Key)
    → key_of (meta_of k new) ≡ key
    → find k key (put k new os) ≡ some new
found_after k new os key e = rw (find-put, (same_key_iff _ key).1 e)

mutated_ok :
    (k : Kind) (o : Object k) (r : Reply (Object k)) (m : Memory) {result : String}
    → (store_mutated k o r m).0 ≡ ok result
    → (new : Object k) × (r ≡ ok new)
      × (stored k (store_mutated k o r m).1 (key_of (meta_of k o)) ≡ some new)
unfolding store_mutated
mutated_ok k o (err e) m h = cc
mutated_ok k o (ok new) m h =
    elim (Bool-cases (same_key (key_of (meta_of k new)) (key_of (meta_of k o)))) [
      | inl e ↦ (
        new,
        refl,
        rw (e, objects-with_objects) (found_after k new (objects k m) _ ((same_key_iff _ _).0 e)),
      )
      | inr e ↦ let bad : err _ ≡ ok _ = rw e at h in cc
    ]

module _ (k : Kind) (o : Object k) (f : Object k → Reply (Object k)) (m : Memory) where
  create_or_update_missing :
      find k (key_of (meta_of k o)) (objects k m) ≡ none
      → create_or_update k o f m ≡ store_mutated k o (f o) m
  unfolding create_or_update
  create_or_update_missing e = rw (e, create_or_update)

  create_or_update_found :
      (x : Object k)
      → find k (key_of (meta_of k o)) (objects k m) ≡ some x
      → create_or_update k o f m ≡ store_mutated k o (f x) m
  unfolding create_or_update
  create_or_update_found x e = rw (e, create_or_update)

  pub create_or_update_ok :
      {result : String}
      → (create_or_update k o f m).0 ≡ ok result
      → (old new : Object k) × ((stored k m (key_of (meta_of k o)) ≡ some old)
          ⊎ ((stored k m (key_of (meta_of k o)) ≡ none) × (old ≡ o)))
        × (f old ≡ ok new)
        × (stored k (create_or_update k o f m).1 (key_of (meta_of k o)) ≡ some new)
  create_or_update_ok h = elim (Option-cases (find k (key_of (meta_of k o)) (objects k m))) [
    | inl e ↦
        let same = create_or_update_missing e in
        let (new, made, after) = mutated_ok k o (f o) m (sym (ap (λ r. r.0) same) ∙ h) in
        (o, new, inr (e, refl), made, ap (λ r. stored k r.1 (key_of (meta_of k o))) same ∙ after)
    | inr (x, e) ↦
        let same = create_or_update_found x e in
        let (new, made, after) = mutated_ok k o (f x) m (sym (ap (λ r. r.0) same) ∙ h) in
        (x, new, inl e, made, ap (λ r. stored k r.1 (key_of (meta_of k o))) same ∙ after)
  ]
