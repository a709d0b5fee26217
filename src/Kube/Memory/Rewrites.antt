-- ===== src/Kube/Memory/Rewrites.antt =====
-- What a change of one stored object does to the stored objects.
use kterodactyl.Prelude.{
  ◌≡◌, ◌≢◌, ap, sym, ◌∙◌, ◌⊎◌, inl, inr, none, some, Bool-cases, Option-cases,
}
use kterodactyl.Kube.Errors.{ok, err, not_found}
use kterodactyl.Kube.Meta.{Key, key_of}
use kterodactyl.Kube.Objects.{Kind, Object, meta_of}
use kterodactyl.Kube.Memory.Store.{
  same_key_iff, key-find, find-put, objects-with_objects, objects-with_other,
}
use kterodactyl.Kube.Memory.{Memory, objects, with_objects, same_key, find, put, rewrite}
use kterodactyl.Kube.Memory.Objects.{stored}

module _ (k : Kind) (f : Object k → Object k)
    (keeps : (o : Object k) → key_of (meta_of k (f o)) ≡ key_of (meta_of k o)) (key : Key)
    (m : Memory) where
  written :
      (old : Object k)
      → find k key (objects k m) ≡ some old
      → rewrite k f key m ≡ (ok (f old), with_objects k (put k (f old) (objects k m)) m)
  unfolding rewrite
  written old e = rw (e, rewrite)

  missing : find k key (objects k m) ≡ none → rewrite k f key m ≡ (err not_found, m)
  unfolding rewrite
  missing e = rw (e, rewrite)

  put_stored :
      (old : Object k) (q : Key)
      → find k q (objects k (with_objects k (put k (f old) (objects k m)) m))
        ≡ find k q (put k (f old) (objects k m))
  put_stored old q = ap (find k q) (objects-with_objects k (put k (f old) (objects k m)) m)

  pub rewrite_at :
      (q : Key)
      → (stored k (rewrite k f key m).1 q ≡ stored k m q)
        ⊎ ((q ≡ key)
            × ((old : Object k) × (stored k m q ≡ some old)
                × (stored k (rewrite k f key m).1 q ≡ some (f old))))
  rewrite_at q = elim (Option-cases (find k key (objects k m))) [
    | inl e ↦ inl (ap (λ r. stored k r.1 q) (missing e))
    | inr (old, e) ↦
        let own = keeps old ∙ key-find k key (objects k m) e in
        let after =
          ap (λ r. stored k r.1 q) (written old e)
          ∙ put_stored old q
          ∙ find-put k (f old) (objects k m) q in
        elim (Bool-cases (same_key (key_of (meta_of k (f old))) q)) [
          | inl here ↦
              let at_q : q ≡ key = sym ((same_key_iff _ q).0 here) ∙ own in
              inr (at_q, (old, ap (λ x. stored k m x) at_q ∙ e, after ∙ rw here))
          | inr away ↦ inl (after ∙ rw away)
        ]
  ]

  pub rewrite_ok :
      {o : Object k}
      → (rewrite k f key m).0 ≡ ok o
      → (old : Object k) × (stored k m key ≡ some old)
        × (stored k (rewrite k f key m).1 key ≡ some (f old))
  rewrite_ok {o} h = elim (Option-cases (find k key (objects k m))) [
    | inl e ↦ let bad : err not_found ≡ ok o = sym (ap (λ r. r.0) (missing e)) ∙ h in cc
    | inr (old, e) ↦
        let own = keeps old ∙ key-find k key (objects k m) e in
        let here = (same_key_iff (key_of (meta_of k (f old))) key).1 own in
        (
          old,
          e,
          ap (λ r. stored k r.1 key) (written old e)
              ∙ put_stored old key
              ∙ find-put k (f old) (objects k m) key
              ∙ rw here,
        )
  ]

  pub rewrite_frame : (j : Kind) (q : Key) → j ≢ k → stored j (rewrite k f key m).1 q ≡ stored j m q
  rewrite_frame j q n = elim (Option-cases (find k key (objects k m))) [
    | inl e ↦ ap (λ r. stored j r.1 q) (missing e)
    | inr (old, e) ↦
        ap (λ r. stored j r.1 q) (written old e)
        ∙ ap (find j q) (objects-with_other j k (put k (f old) (objects k m)) m n)
  ]
