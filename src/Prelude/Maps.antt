-- ===== src/Prelude/Maps.antt =====
-- Go's `map[string]V` as an association list. A `nil` map and an empty one read alike, so both are
-- the empty list. A write replaces the entry of its key, so a key stands at most once in a map that
-- writes built.
use Prim.Native.String.{String}
use mathlib.Core.Path.{◌≡◌, refl}
use mathlib.Core.Option.{Option, none, some}
use mathlib.Core.List.{List, [], ◌∷◌}
use native.Mathlib.Omega.{arith}
use text.Mathlib.Text.{◌==◌}
use text.Mathlib.TextEquality.{eq_iff}
use kterodactyl.Prelude.Tests.{if◌then◌else◌}

abbrev pub Dict {ℓ} : Type ℓ → Type ℓ
Dict V = List (String × V)

module _ {ℓ} {V : Type ℓ} where
  unfoldable pub lookup : String → Dict V → Option V
  lookup k [] = none
  lookup k ((j, v) ∷ m) = if j == k then some v else lookup k m

  unfoldable pub insert : String → V → Dict V → Dict V
  insert k v [] = (k, v) ∷ []
  insert k v ((j, w) ∷ m) = if j == k then (k, v) ∷ m else (j, w) ∷ insert k v m

  unfoldable pub delete : String → Dict V → Dict V
  delete k [] = []
  delete k ((j, v) ∷ m) = let rest = delete k m in if j == k then rest else (j, v) ∷ rest

  -- `for k, v := range over { result[k] = v }`
  unfoldable pub overlay : Dict V → Dict V → Dict V
  overlay result [] = result
  overlay result ((k, v) ∷ over) = overlay (insert k v result) over

  pub lookup-insert :
      (key read : String) (value : V) (dict : Dict V)
      → lookup read (insert key value dict) ≡ (if key == read then some value else lookup read dict)
  unfolding insert lookup
  lookup-insert key read value [] = refl
  lookup-insert key read value ((name, old) ∷ dict) =
      ground (
        arith,
        lookup-insert key read value dict,
        eq_iff name read,
        eq_iff key read,
        eq_iff name key,
      )

  pub lookup-delete :
      (k j : String) (m : Dict V) → lookup j (delete k m) ≡ (if k == j then none else lookup j m)
  unfolding lookup delete
  lookup-delete k j [] = ground arith
  lookup-delete k j ((i, w) ∷ m) =
      ground (arith, eq_iff i k, eq_iff i j, eq_iff k j, lookup-delete k j m)

-- A missing key reads as the zero value, which for text is the empty text.
unfoldable pub text_at : String → Dict String → String
unfolding lookup
text_at k m = elim (lookup k m) [ none ↦ "" | some v ↦ v ]
