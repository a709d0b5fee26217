-- ===== src/Kube/Exec/Runs.antt =====
-- What a block does to a view of the state: from a view with a property it comes to one in a relation
-- to it, whether it returns or fails.
use kterodactyl.Prelude.{String, Bool, true, false, if◌then◌else◌, ◌≡◌, sym, subst, refl}
use kterodactyl.Kube.Errors.{Reply, ok, err}
use kterodactyl.Kube.Exec.{Exec, wrapping, attempt, continue, ◌>>=◌}
use kterodactyl.Kube.Exec.Leaves.{Leaves}

pub record Runs {S V A : Type 0} (look : S → V) (Pre : V → Type 0) (Post : V → V → Type 0)
    (m : Exec S A) : Type 0 where
  pub runs : (s : S) → Pre (look s) → Post (look s) (look (m s).1)

module _ {S V A : Type 0} {look : S → V} {Pre : V → Type 0} {Post : V → V → Type 0} where
  pub Runs-if :
      (b : Bool) (m n : Exec S A)
      → (b ≡ true → Runs look Pre Post m)
      → (b ≡ false → Runs look Pre Post n)
      → Runs look Pre Post (if b then m else n)
  Runs-if true m n k h = k refl
  Runs-if false m n k h = h refl

  pub Runs-wrapping :
      (context : String) (m : Exec S A)
      → Runs look Pre Post m
      → Runs look Pre Post (wrapping context m)
  unfolding wrapping
  Runs-wrapping context m k = record { runs = k.runs }

  pub Runs-attempt : (m : Exec S A) → Runs look Pre Post m → Runs look Pre Post (attempt m)
  unfolding attempt
  Runs-attempt m k = record { runs = k.runs }

  pub Runs-of_Leaves :
      ((v : V) → Pre v → Post v v) → (m : Exec S A) → Leaves look m → Runs look Pre Post m
  Runs-of_Leaves stay m k = record {
    runs = λ s h. subst (Post (look s)) (sym (k.same_view s)) (stay (look s) h);
  }

module _ {S V A B : Type 0} {look : S → V} {Pre : V → Type 0} {Post : V → V → Type 0}
    (stay : (v : V) → Pre v → Post v v) where
  Runs-continue :
      (r : Reply A) (f : A → Exec S B)
      → ((a : A) → r ≡ ok a → Runs look Pre Post (f a))
      → Runs look Pre Post (continue r f)
  Runs-continue (ok a) f h = h a refl
  Runs-continue (err e) f h = record { runs = λ s. stay (look s) }

  -- The rest of the block may use what `m` returned.
  pub Runs-bind_of :
      (m : Exec S A) (f : A → Exec S B)
      → Leaves look m
      → ((s : S) (a : A) → Pre (look s) → (m s).0 ≡ ok a → Runs look Pre Post (f a))
      → Runs look Pre Post (m >>= f)
  unfolding ◌>>=◌
  Runs-bind_of m f k h = record {
    runs = λ s pre.
        subst (λ v. Post v (look ((m >>= f) s).1)) (k.same_view s)
          ((Runs-continue (m s).0 f (λ a. h s a pre)).runs (m s).1
            (subst Pre (sym (k.same_view s)) pre));
  }

  pub Runs-bind :
      (m : Exec S A) (f : A → Exec S B)
      → Leaves look m
      → ((a : A) → Runs look Pre Post (f a))
      → Runs look Pre Post (m >>= f)
  Runs-bind m f k h = Runs-bind_of m f k (λ s a pre e. h a)

-- One part after another.
module _ {S V A B : Type 0} {look : S → V} {Pre Mid : V → Type 0} {First Rest Post : V → V → Type 0}
    (between : (u v : V) → Pre u → First u v → Mid v)
    (together : (u v w : V) → Pre u → First u v → Rest v w → Post u w)
    (alone : (u v : V) → Pre u → First u v → Post u v) where
  seq-continue :
      (u : V) (r : Reply A) (f : A → Exec S B) (s : S)
      → ((a : A) → Runs look Mid Rest (f a))
      → Pre u
      → First u (look s)
      → Post u (look (continue r f s).1)
  seq-continue u (ok a) f s h pre first =
      together u (look s) (look (f a s).1) pre first ((h a).runs s (between u (look s) pre first))
  seq-continue u (err e) f s h pre first = alone u (look s) pre first

  pub Runs-seq :
      (m : Exec S A) (f : A → Exec S B)
      → Runs look Pre First m
      → ((a : A) → Runs look Mid Rest (f a))
      → Runs look Pre Post (m >>= f)
  unfolding ◌>>=◌
  Runs-seq m f k h = record {
    runs = λ s pre. seq-continue (look s) (m s).0 f (m s).1 h pre (k.runs s pre);
  }

module _ {S V A B : Type 0} {look : S → V} where
  then-continue :
      (r : Reply A) (f : A → Exec S B) (s : S)
      → ((a : A) → Leaves look (f a))
      → look (continue r f s).1 ≡ look s
  then-continue (ok a) f s h = (h a).same_view s
  then-continue (err e) f s h = refl

module _ {S V A B : Type 0} {look : S → V} {Pre : V → Type 0} {Post : V → V → Type 0} where
  -- A part that runs, and then others that change nothing.
  pub Runs-then :
      (m : Exec S A) (f : A → Exec S B)
      → Runs look Pre Post m
      → ((a : A) → Leaves look (f a))
      → Runs look Pre Post (m >>= f)
  unfolding ◌>>=◌
  Runs-then m f k h = record {
    runs = λ s pre. subst (Post (look s)) (sym (then-continue (m s).0 f (m s).1 h)) (k.runs s pre);
  }

module _ {S V A : Type 0} {look : S → V} {Pre More : V → Type 0} {Post : V → V → Type 0} where
  pub Runs-pre :
      (m : Exec S A) → ((v : V) → More v → Pre v) → Runs look Pre Post m → Runs look More Post m
  Runs-pre m weaken k = record { runs = λ s h. k.runs s (weaken (look s) h) }
