-- ===== src/Api/Filenames.antt =====
-- The check of a file name in internal/api/handlers_mods.go: an accepted name is one element of a path.
use Prim.Native.Char.{Char, code}
use kterodactyl.Prelude.{
  String, ◌==◌, ◌≡◌, refl, ap, subst, ◌∙◌, sym, Bool, true, false, ◌||◌, ◌&&◌, inl, inr, Option,
  some, none, Bool-cases, eq_iff, any_char, trim_right, is_slash, after_slash, base, arith,
  if◌then◌else◌, some_inj,
}
use kterodactyl.Api.Mods.{is_any_slash, sanitize}

-- an element of a path that names a file
unfoldable pub IsPlain : String → Type 0
IsPlain name =
    (any_char is_any_slash name ≡ false)
    × ((name == "") ≡ false)
    × ((name == ".") ≡ false)
    × ((name == "..") ≡ false)

abbrev is_missing_text : String → Bool
is_missing_text String.[] = true
is_missing_text (String.◌∷◌ c s) = false

not_empty : (c : Char) (s : String) → (String.◌∷◌ c s == "") ≡ true → false ≡ true
not_empty c s h = ap is_missing_text ((eq_iff (String.◌∷◌ c s) "").0 h)

ends_in_slash : (c : Char) → any_char is_slash (String.◌∷◌ c "") ≡ true → is_slash (code c) ≡ true
unfolding any_char
ends_in_slash c h = ground arith

-- Where nothing comes after the last slash of a text, and this says that the text behind its first
-- character is empty, the text is one slash.
after_slash-first :
    (c : Char) (rest : String)
    → ((after_slash rest == "") ≡ true → (rest == "") ≡ true)
    → (after_slash (String.◌∷◌ c rest) == "") ≡ true
    → is_slash (code c) && rest == "" ≡ true
unfolding after_slash
after_slash-first c rest step h = elim (Bool-cases (any_char is_slash (String.◌∷◌ c rest))) [
  | inl e ↦
      (let shorter : after_slash (String.◌∷◌ c rest) ≡ after_slash rest = rw e refl in
        let ended = step (ap (λ t. t == "") (sym shorter) ∙ h) in
        let empty = (eq_iff rest "").0 ended in
        let slash =
          ends_in_slash c (ap (λ r. any_char is_slash (String.◌∷◌ c r)) (sym empty) ∙ e) in
        rw (slash, ended) refl)
  | inr e ↦
      (let same : after_slash (String.◌∷◌ c rest) ≡ String.◌∷◌ c rest = rw e refl in
        let bad = not_empty c rest (ap (λ t. t == "") (sym same) ∙ h) in cc)
]

-- A path without the slashes at its end does not end in a slash.
after_slash-trim_right :
    (s : String)
    → (after_slash (trim_right is_slash s) == "") ≡ true
    → (trim_right is_slash s == "") ≡ true
unfolding trim_right
after_slash-trim_right String.[] h = refl
after_slash-trim_right (String.◌∷◌ c s) h =
    elim (Bool-cases (is_slash (code c) && trim_right is_slash s == "")) [
      | inl e ↦ rw e refl
      | inr e ↦
          (let same : trim_right is_slash (String.◌∷◌ c s) ≡ String.◌∷◌ c (trim_right is_slash s) =
              rw e refl in
            let slash =
              after_slash-first c (trim_right is_slash s) (after_slash-trim_right s)
                (ap (λ t. after_slash t == "") (sym same) ∙ h) in
            cc)
    ]

after_slash-nonempty :
    (path : String)
    → (trim_right is_slash path == "") ≡ false
    → (after_slash (trim_right is_slash path) == "") ≡ false
after_slash-nonempty path h = elim (Bool-cases (after_slash (trim_right is_slash path) == "")) [
  | inl e ↦ (let same = after_slash-trim_right path e in cc)
  | inr e ↦ e
]

base-nonempty : (path : String) → (base path == "") ≡ false
unfolding base
base-nonempty path = elim (Bool-cases (path == "")) [
  | inl e ↦ rw e refl
  | inr e ↦ elim (Bool-cases (trim_right is_slash path == "")) [
    | inl f ↦ rw (e, f) refl
    | inr f ↦ rw (e, f) (after_slash-nonempty path f)
  ]
]

any_char-is_slash : (s : String) → any_char is_any_slash s ≡ false → any_char is_slash s ≡ false
unfolding any_char is_any_slash is_slash
any_char-is_slash String.[] h = refl
any_char-is_slash (String.◌∷◌ c s) h = ground (arith, any_char-is_slash s)

after_slash-plain : (s : String) → any_char is_slash s ≡ false → after_slash s ≡ s
unfolding after_slash any_char
after_slash-plain String.[] h = refl
after_slash-plain (String.◌∷◌ c s) h = rw h refl

trim_right-plain : (s : String) → any_char is_slash s ≡ false → trim_right is_slash s ≡ s
unfolding trim_right any_char
trim_right-plain String.[] h = refl
trim_right-plain (String.◌∷◌ c s) h = ground (arith, trim_right-plain s)

base-plain : (name : String) → IsPlain name → base name ≡ name
unfolding base IsPlain
base-plain name (slashes, nonempty, dot, dots) =
    let single = any_char-is_slash name slashes in
    rw (nonempty, trim_right-plain name single, nonempty) (after_slash-plain name single)

-- A name that is one element of a path, and is not empty, `.` or `..`, is accepted as it is.
pub sanitize_plain : (name : String) → IsPlain name → sanitize name ≡ some name
unfolding sanitize IsPlain
sanitize_plain name (slashes, nonempty, dot, dots) =
    rw (base-plain name (slashes, nonempty, dot, dots), dot, dots, slashes) refl

no_name : {A : Type 0} {name : String} → none ≡ some name → A
no_name e =
    let bad : true ≡ false =
      ap (λ (o : Option String). elim o [ none ↦ true | some n ↦ false ]) e in
    cc

accepted :
    (a b c : Bool) {name result : String}
    → (if a || b || c then none else some name) ≡ some result
    → (a ≡ false) × (b ≡ false) × (c ≡ false) × (name ≡ result)
accepted true b c e = no_name e
accepted false true c e = no_name e
accepted false false true e = no_name e
accepted false false false e = (refl, refl, refl, some_inj e)

base_accepted :
    (path : String) {name : String}
    → sanitize path ≡ some name
    → IsPlain (base path) × (base path ≡ name)
unfolding sanitize IsPlain
base_accepted path e =
    let (dot, dots, slashes, same) = accepted _ _ _ e in
    ((slashes, base-nonempty path, dot, dots), same)

-- Whatever the path, a name that is accepted has no slash of either kind and is not empty, `.` or
-- `..`, so that it names a file of the folder of mods; and it is accepted again as it is.
pub sanitize-IsPlain :
    (path : String) {name : String}
    → sanitize path ≡ some name
    → IsPlain name × (sanitize name ≡ some name)
sanitize-IsPlain path e =
    let (plain, same) = base_accepted path e in
    let moved = subst IsPlain same plain in (moved, sanitize_plain _ moved)
