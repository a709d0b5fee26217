-- ===== src/Api/Parameters.antt =====
-- `mergeMaps`: which value each key has in the merged parameters.
use kterodactyl.Prelude.{
  String, ◌==◌, ◌≡◌, refl, ap, ◌∙◌, Option, none, some, [], ◌∷◌, Dict, lookup, insert, overlay,
  lookup-insert, eq_iff, Bool-cases, inl, inr,
}
use kterodactyl.Api.Requests.{merge_maps}

-- Each key stands once, as in a Go map.
pub data IsMap : Dict String → Type 0 where
  no_entry : IsMap []
  entry :
      {key value : String} {rest : Dict String}
      → lookup key rest ≡ none
      → IsMap rest
      → IsMap ((key, value) ∷ rest)

-- the first that is there
unfoldable pub either : Option String → Option String → Option String
either none b = b
either (some a) b = some a

either-none : (a : Option String) → either a none ≡ a
unfolding either
either-none none = refl
either-none (some a) = refl

lookup-overlay :
    (key : String) (result over : Dict String)
    → IsMap over
    → lookup key (overlay result over) ≡ either (lookup key over) (lookup key result)
unfolding overlay lookup either
lookup-overlay key result [] no_entry = refl
lookup-overlay key result ((j, v) ∷ over) (entry fresh rest) = elim (Bool-cases (j == key)) [
  | inl h ↦
      let e : j ≡ key = (eq_iff j key).0 h in
      let missing : lookup key over ≡ none = cc in
      lookup-overlay key (insert j v result) over rest
      ∙ rw (missing, lookup-insert j key v result, h) refl
  | inr h ↦
      lookup-overlay key (insert j v result) over rest ∙ rw (lookup-insert j key v result, h) refl
]

-- When each key stands once in the base and in the override, a key has in the merged parameters the
-- value of the override, and else the one of the base.
pub lookup-merge_maps :
    (key : String) (base override : Dict String)
    → IsMap base
    → IsMap override
    → lookup key (merge_maps base override) ≡ either (lookup key override) (lookup key base)
unfolding merge_maps either lookup
lookup-merge_maps key base override b o =
    lookup-overlay key (overlay [] base) override o
    ∙ rw (lookup-overlay key [] base b) (ap (either (lookup key override)) (either-none _))
