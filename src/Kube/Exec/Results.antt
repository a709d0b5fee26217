-- ===== src/Kube/Exec/Results.antt =====
-- Inversion: what a block that returned has done.
use kterodactyl.Prelude.{String, Bool, true, false, if◌then◌else◌, ◌≡◌, refl, ap}
use kterodactyl.Kube.Errors.{Err, Reply, ok, err, or_wrap, wrap}
use kterodactyl.Kube.Exec.{Exec, pure, fail, wrapping, modify, continue, ◌>>=◌, ◌>>◌}

pub or_wrap-eq-ok {ℓ} :
    {A : Type ℓ} (context : String) (r : Reply A) {a : A} → or_wrap context r ≡ ok a → r ≡ ok a
or_wrap-eq-ok context (ok a) h = h
or_wrap-eq-ok context (err e) h = cc

module _ {S A B : Type 0} where
  continue-eq-ok :
      (r : Reply A) (f : A → Exec S B) (s : S) {b : B}
      → (continue r f s).0 ≡ ok b
      → (a : A) × (r ≡ ok a) × (continue r f s ≡ f a s)
  continue-eq-ok (ok a) f s h = (a, refl, refl)
  continue-eq-ok (err e) f s h = cc

  -- A block that returned is its rest, at what the first step returned.
  pub bind-eq-ok :
      (m : Exec S A) (f : A → Exec S B) (s : S) {b : B}
      → ((m >>= f) s).0 ≡ ok b
      → (a : A) × ((m s).0 ≡ ok a) × ((m >>= f) s ≡ f a (m s).1)
  unfolding ◌>>=◌
  bind-eq-ok m f s h = continue-eq-ok (m s).0 f (m s).1 h

module _ {S A : Type 0} where
  pub wrapping-eq-ok :
      (context : String) (m : Exec S A) (s : S) {a : A}
      → (wrapping context m s).0 ≡ ok a
      → (m s).0 ≡ ok a
  unfolding wrapping
  wrapping-eq-ok context m s h = or_wrap-eq-ok context (m s).0 h

  pub state-wrapping :
      (context : String) (m : Exec S A) (s : S) → (wrapping context m s).1 ≡ (m s).1
  unfolding wrapping
  state-wrapping context m s = refl

pub modify-pure : {S A : Type 0} (f : S → S) (a : A) (s : S) → (modify f >> pure a) s ≡ (ok a, f s)
unfolding ◌>>=◌
modify-pure f a s = refl

module _ {S A B : Type 0} where
  pub wrapping-bind-eq-ok :
      (context : String) (m : Exec S A) (f : A → Exec S B) (s : S) {b : B}
      → ((wrapping context m >>= f) s).0 ≡ ok b
      → (a : A) × ((m s).0 ≡ ok a) × ((wrapping context m >>= f) s ≡ f a (m s).1)
  unfolding wrapping
  wrapping-bind-eq-ok context m f s h =
      let (a, returned, rest) = bind-eq-ok (wrapping context m) f s h in
      (a, wrapping-eq-ok context m s returned, rest)

module _ {S A B : Type 0} where
  -- A step that returned passes its result on.
  pub bind-ok :
      (m : Exec S A) (f : A → Exec S B) (s : S) {a : A} → (m s).0 ≡ ok a → (m >>= f) s ≡ f a (m s).1
  unfolding ◌>>=◌
  bind-ok m f s h = ap (λ r. continue r f (m s).1) h

  pub wrapping-bind-ok :
      (context : String) (m : Exec S A) (f : A → Exec S B) (s : S) {a : A}
      → (m s).0 ≡ ok a
      → (wrapping context m >>= f) s ≡ f a (m s).1
  unfolding wrapping
  wrapping-bind-ok context m f s h = bind-ok (wrapping context m) f s (ap (or_wrap context) h)

-- A block behind a guard returned: the guard held.
pub guarded-eq-ok :
    {S A : Type 0} (b : Bool) (m : Exec S A) (e : Err) (s : S) {a : A}
    → ((if b then m else fail e) s).0 ≡ ok a
    → (b ≡ true) × ((if b then m else fail e) s ≡ m s)
unfolding fail
guarded-eq-ok true m e s h = (refl, refl)
guarded-eq-ok false m e s h = cc

-- A step that failed ends the block.
pub wrapping-bind-err :
    {S A B : Type 0} (context : String) (m : Exec S A) (f : A → Exec S B) (s : S) {e : Err}
    → (m s).0 ≡ err e
    → (wrapping context m >>= f) s ≡ (err (wrap context e), (m s).1)
unfolding wrapping ◌>>=◌
wrapping-bind-err context m f s h = ap (λ r. continue (or_wrap context r) f (m s).1) h
