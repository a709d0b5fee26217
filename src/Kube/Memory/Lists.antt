-- ===== src/Kube/Memory/Lists.antt =====
-- What a list of the cluster in memory returns is stored.
use kterodactyl.Prelude.{
  String, Bool, true, false, eq_iff, lookup, Option-cases, none, ap, ◌∙◌, ◌==◌, ◌≡◌, refl, subst,
  sym, ◌&&◌, Option, some, List, [], ◌∷◌, Dict, Bool-cases, inl, inr, All,
}
use kterodactyl.Kube.Errors.{ok, ok_inj}
use kterodactyl.Kube.Meta.{key_of, Meta}
use kterodactyl.Kube.Objects.{Kind, Object, meta_of}
use kterodactyl.Kube.Platform.{IsIn, HasLabels}
use kterodactyl.Kube.Memory.Objects.{stored}
use kterodactyl.Kube.Memory.Store.{same_key_iff}
use kterodactyl.Kube.Memory.{
  Memory, objects, same_key, find, remove, distinct, has_labels, in_namespace, selected, list,
}

both : (a b : Bool) → a && b ≡ true → (a ≡ true) × (b ≡ true)
both true true h = (refl, refl)
both true false h = cc
both false b h = cc

module _ (k : Kind) where
  abbrev FoundIn : List (Object k) → Object k → Type 0
  FoundIn os o = find k (key_of (meta_of k o)) os ≡ some o

  -- Behind another object, once no object has its key.
  found_behind :
      (x : Object k) (os xs : List (Object k))
      → All (FoundIn os) xs
      → All (FoundIn (x ∷ os)) (remove k (key_of (meta_of k x)) xs)
  unfolding find remove
  found_behind x os [] h = tt
  found_behind x os (y ∷ ys) (here, rest) =
      elim (Bool-cases (same_key (key_of (meta_of k y)) (key_of (meta_of k x)))) [
        | inl e ↦ rw e (found_behind x os ys rest)
        | inr e ↦ rw e (
          elim (Bool-cases (same_key (key_of (meta_of k x)) (key_of (meta_of k y)))) [
            | inl e' ↦
                let same = (same_key_iff (key_of (meta_of k x)) (key_of (meta_of k y))).0 e' in
                let yes' =
                  (same_key_iff (key_of (meta_of k y)) (key_of (meta_of k x))).1 (sym same) in
                cc
            | inr e' ↦ rw e' here
          ],
          found_behind x os ys rest,
        )
      ]

  distinct-found : (os : List (Object k)) → All (FoundIn os) (distinct k os)
  unfolding distinct find
  distinct-found [] = tt
  distinct-found (x ∷ xs) = (
    rw ((same_key_iff (key_of (meta_of k x)) (key_of (meta_of k x))).1 refl),
    found_behind x xs (distinct k xs) (distinct-found xs),
  )

  selected-All :
      (P : Object k → Type 0) (ns : Option String) (ls : Dict String) (os : List (Object k))
      → All P os
      → All P (selected k ns ls os)
  unfolding selected
  selected-All P ns ls [] h = tt
  selected-All P ns ls (o ∷ os) (here, rest) =
      elim (Bool-cases (in_namespace k ns (meta_of k o) && has_labels k ls (meta_of k o).labels)) [
        | inl e ↦ rw e (here, selected-All P ns ls os rest)
        | inr e ↦ rw e (selected-All P ns ls os rest)
      ]

  pub list_ok :
      (ns : Option String) (ls : Dict String) (m : Memory) {items : List (Object k)}
      → (list k ns ls m).0 ≡ ok items
      → All (λ o. stored k m (key_of (meta_of k o)) ≡ some o) items
  unfolding list
  list_ok ns ls m {items} h = subst (All (FoundIn (objects k m))) (ok_inj h) (
      selected-All (FoundIn (objects k m)) ns ls (distinct k (objects k m))
        (distinct-found (objects k m)))

  has_labels-HasLabels :
      (ls : Dict String) (m : Meta) → has_labels k ls m.labels ≡ true → HasLabels ls m
  unfolding has_labels
  has_labels-HasLabels [] m h = tt
  has_labels-HasLabels ((key, v) ∷ ls) m h = elim (Option-cases (lookup key m.labels)) [
    | inl e ↦ (let bad : false ≡ true = rw (e, has_labels) at h in cc)
    | inr (w, e) ↦
        (let (same, rest) = both (v == w) (has_labels k ls m.labels) (rw (e, has_labels) at h) in
          (e ∙ ap some (sym ((eq_iff v w).0 same)), has_labels-HasLabels ls m rest))
  ]

  in_namespace-IsIn : (ns : Option String) (m : Meta) → in_namespace k ns m ≡ true → IsIn ns m
  unfolding in_namespace
  in_namespace-IsIn none m h = tt
  in_namespace-IsIn (some ns) m h = (eq_iff m.namespace ns).0 h

  selected-IsSelected :
      (ns : Option String) (ls : Dict String) (os : List (Object k))
      → All (λ o. IsIn ns (meta_of k o) × HasLabels ls (meta_of k o)) (selected k ns ls os)
  unfolding selected
  selected-IsSelected ns ls [] = tt
  selected-IsSelected ns ls (o ∷ os) =
      elim (Bool-cases (in_namespace k ns (meta_of k o) && has_labels k ls (meta_of k o).labels)) [
        | inl e ↦
            let (here, labelled) = both (in_namespace k ns (meta_of k o)) _ e in
            rw e (
              (
                in_namespace-IsIn ns (meta_of k o) here,
                has_labels-HasLabels ls (meta_of k o) labelled,
              ),
              selected-IsSelected ns ls os,
            )
        | inr e ↦ rw e (selected-IsSelected ns ls os)
      ]

  pub list_selected :
      (ns : Option String) (ls : Dict String) (m : Memory) {items : List (Object k)}
      → (list k ns ls m).0 ≡ ok items
      → All (λ o. IsIn ns (meta_of k o) × HasLabels ls (meta_of k o)) items
  unfolding list
  list_selected ns ls m {items} h =
      subst (All (λ o. IsIn ns (meta_of k o) × HasLabels ls (meta_of k o))) (ok_inj h)
        (selected-IsSelected ns ls (distinct k (objects k m)))
