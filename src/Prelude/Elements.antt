-- ===== src/Prelude/Elements.antt =====
-- `All` and `Any`, the slices of a list, and its rearrangements.
use Prim.Native.Nat.{ℕ, zero, suc, min}
use mathlib.Core.Path.{◌≡◌, refl, ap, subst, sym}
use mathlib.Core.Logic.{inl, inr}
use mathlib.Core.List.{List, [], ◌∷◌, ◌++◌}
use native.Mathlib.Omega.{arith}
use kterodactyl.Prelude.Tests.{length, All, Any}

-- The lists hold the same elements, each as often: the library's `Perm` before it is truncated.
pub data Shuffle {ℓ} {A : Type ℓ} : List A → List A → Type ℓ where
  nil : Shuffle [] []
  cons : {x y : A} {xs ys : List A} → x ≡ y → Shuffle xs ys → Shuffle (x ∷ xs) (y ∷ ys)
  swap : {x y x' y' : A} {xs : List A} → x ≡ x' → y ≡ y' → Shuffle (x ∷ y ∷ xs) (y' ∷ x' ∷ xs)
  trans : {xs ys zs : List A} → Shuffle xs ys → Shuffle ys zs → Shuffle xs zs

pub Shuffle-refl {ℓ} : {A : Type ℓ} (xs : List A) → Shuffle xs xs
Shuffle-refl [] = nil
Shuffle-refl (x ∷ xs) = cons refl (Shuffle-refl xs)

pub Shuffle-sym {ℓ} : {A : Type ℓ} {xs ys : List A} → Shuffle xs ys → Shuffle ys xs
Shuffle-sym nil = nil
Shuffle-sym (cons e h) = cons (sym e) (Shuffle-sym h)
Shuffle-sym (swap e f) = swap (sym f) (sym e)
Shuffle-sym (trans h k) = trans (Shuffle-sym k) (Shuffle-sym h)

module _ {ℓ} {A : Type ℓ} where
  -- the elements before an index, and from it on
  abbrev pub take : ℕ → List A → List A
  take zero xs = []
  take (suc n) [] = []
  take (suc n) (x ∷ xs) = x ∷ take n xs

  abbrev pub drop : ℕ → List A → List A
  drop zero xs = xs
  drop (suc n) [] = []
  drop (suc n) (x ∷ xs) = drop n xs

  pub take-append-drop : (n : ℕ) (xs : List A) → take n xs ++ drop n xs ≡ xs
  take-append-drop zero xs = refl
  take-append-drop (suc n) [] = refl
  take-append-drop (suc n) (x ∷ xs) = ap (◌∷◌ x) (take-append-drop n xs)

  pub length-take : (n : ℕ) (xs : List A) → length (take n xs) ≡ min n (length xs)
  length-take zero xs = omega arith
  length-take (suc n) [] = omega arith
  length-take (suc n) (x ∷ xs) = omega (arith, length-take n xs)

  pub length-perm : {xs ys : List A} → Shuffle xs ys → length xs ≡ length ys
  length-perm nil = refl
  length-perm (cons e h) = ap suc (length-perm h)
  length-perm (swap e f) = refl
  length-perm (trans h k) = omega (arith, length-perm h, length-perm k)

  pub All-drop {κ} : (P : A → Type κ) (n : ℕ) (xs : List A) → All P xs → All P (drop n xs)
  All-drop P zero xs h = h
  All-drop P (suc n) [] h = h
  All-drop P (suc n) (x ∷ xs) h = All-drop P n xs h.1

  pub All-perm {κ} : (P : A → Type κ) {xs ys : List A} → Shuffle xs ys → All P xs → All P ys
  All-perm P nil h = h
  All-perm P (cons e k) (x, h) = (subst P e x, All-perm P k h)
  All-perm P (swap e f) (x, (y, h)) = (subst P f y, (subst P e x, h))
  All-perm P (trans k k') h = All-perm P k' (All-perm P k h)

  pub All-map : (P Q : A → Type 0) → ((a : A) → P a → Q a) → (xs : List A) → All P xs → All Q xs
  All-map P Q f [] h = tt
  All-map P Q f (x ∷ xs) h = (f x h.0, All-map P Q f xs h.1)

  pub All-Any : (P Q : A → Type 0) (xs : List A) → All P xs → Any Q xs → (a : A) × P a × Q a
  All-Any P Q [] h k = elim k [ ]
  All-Any P Q (x ∷ xs) h (inl q) = (x, h.0, q)
  All-Any P Q (x ∷ xs) h (inr k) = All-Any P Q xs h.1 k

  pub All-both : (P Q : A → Type 0) (xs : List A) → All P xs → All Q xs → All (λ a. P a × Q a) xs
  All-both P Q [] h k = tt
  All-both P Q (x ∷ xs) h k = ((h.0, k.0), All-both P Q xs h.1 k.1)

  pub All-of : (P : A → Type 0) → ((a : A) → P a) → (xs : List A) → All P xs
  All-of P f [] = tt
  All-of P f (x ∷ xs) = (f x, All-of P f xs)

  pub Any-both : (P Q : A → Type 0) (xs : List A) → All P xs → Any Q xs → Any (λ a. P a × Q a) xs
  Any-both P Q [] h k = k
  Any-both P Q (x ∷ xs) h (inl q) = inl (h.0, q)
  Any-both P Q (x ∷ xs) h (inr k) = inr (Any-both P Q xs h.1 k)

  pub Any-map : (P Q : A → Type 0) → ((a : A) → P a → Q a) → (xs : List A) → Any P xs → Any Q xs
  Any-map P Q f [] h = h
  Any-map P Q f (x ∷ xs) (inl h) = inl (f x h)
  Any-map P Q f (x ∷ xs) (inr h) = inr (Any-map P Q f xs h)
