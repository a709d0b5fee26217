-- ===== src/Kube/Exec/Leaves.antt =====
-- What a block does not change: an observation of the state that is the same before and after it.
use kterodactyl.Prelude.{String, Bool, true, false, if◌then◌else◌, ◌≡◌, refl, ◌∙◌}
use kterodactyl.Kube.Errors.{Err, Reply, ok, err}
use kterodactyl.Kube.Exec.{Exec, pure, fail, wrapping, attempt, continue, ◌>>=◌}

pub record Leaves {S X A : Type 0} (look : S → X) (m : Exec S A) : Type 0 where
  pub same_view : (s : S) → look (m s).1 ≡ look s

module _ {S X A : Type 0} {look : S → X} where
  pub Leaves-pure : (a : A) → Leaves look (pure a)
  unfolding pure
  Leaves-pure a = record { same_view = λ s. refl }

  pub Leaves-fail : (e : Err) → Leaves look (fail {A = A} e)
  unfolding fail
  Leaves-fail e = record { same_view = λ s. refl }

  pub Leaves-wrapping :
      (context : String) (m : Exec S A) → Leaves look m → Leaves look (wrapping context m)
  unfolding wrapping
  Leaves-wrapping context m k = record { same_view = k.same_view }

  pub Leaves-attempt : (m : Exec S A) → Leaves look m → Leaves look (attempt m)
  unfolding attempt
  Leaves-attempt m k = record { same_view = k.same_view }

  pub Leaves-if :
      (b : Bool) (m n : Exec S A) → Leaves look m → Leaves look n → Leaves look (if b then m else n)
  Leaves-if true m n k h = k
  Leaves-if false m n k h = h

module _ {S X A B : Type 0} {look : S → X} where
  Leaves-continue :
      (r : Reply A) (f : A → Exec S B) → ((a : A) → Leaves look (f a)) → Leaves look (continue r f)
  Leaves-continue (ok a) f h = h a
  Leaves-continue (err e) f h = record { same_view = λ s. refl }

  pub Leaves-bind :
      (m : Exec S A) (f : A → Exec S B)
      → Leaves look m
      → ((a : A) → Leaves look (f a))
      → Leaves look (m >>= f)
  unfolding ◌>>=◌
  Leaves-bind m f k h = record {
    same_view = λ s. (Leaves-continue (m s).0 f h).same_view (m s).1 ∙ k.same_view s;
  }

  Leaves-continue_of :
      (r : Reply A) (f : A → Exec S B)
      → ((a : A) → r ≡ ok a → Leaves look (f a))
      → Leaves look (continue r f)
  Leaves-continue_of (ok a) f h = h a refl
  Leaves-continue_of (err e) f h = record { same_view = λ s. refl }

  -- The rest of the block may use what `m` returned.
  pub Leaves-bind_of :
      (m : Exec S A) (f : A → Exec S B)
      → Leaves look m
      → ((s : S) (a : A) → (m s).0 ≡ ok a → Leaves look (f a))
      → Leaves look (m >>= f)
  unfolding ◌>>=◌
  Leaves-bind_of m f k h = record {
    same_view = λ s. (Leaves-continue_of (m s).0 f (h s)).same_view (m s).1 ∙ k.same_view s;
  }
