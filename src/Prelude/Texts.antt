-- ===== src/Prelude/Texts.antt =====
-- Functions of Go's `strings`, `path/filepath` and `strconv` that the program calls on texts.
use Prim.Native.Char.{Char, code}
use Prim.Native.Nat.{ℕ}
use Prim.Native.String.{String}
use mathlib.Core.Bool.{Bool, true, false, ◌&&◌, ◌||◌}
use mathlib.Core.List.{List, [], ◌∷◌}
use text.Mathlib.Text.{◌==◌}
use kterodactyl.Prelude.Tests.{if◌then◌else◌, nat_eq, leb}

-- `unicode.IsSpace`
unfoldable pub is_space : ℕ → Bool
is_space c =
    (leb 9 c && leb c 13)
    || nat_eq c 32
    || nat_eq c 0x85
    || nat_eq c 0xa0
    || nat_eq c 0x1680
    || (leb 0x2000 c && leb c 0x200a)
    || nat_eq c 0x2028
    || nat_eq c 0x2029
    || nat_eq c 0x202f
    || nat_eq c 0x205f
    || nat_eq c 0x3000

-- a text without what stands at its start, or at its end, and passes the test
unfoldable pub trim_left : (ℕ → Bool) → String → String
trim_left test String.[] = ""
trim_left test (String.◌∷◌ c s) =
    let rest = trim_left test s in if test (code c) then rest else String.◌∷◌ c s

unfoldable pub trim_right : (ℕ → Bool) → String → String
trim_right test String.[] = ""
trim_right test (String.◌∷◌ c s) =
    let rest = trim_right test s in if test (code c) && rest == "" then "" else String.◌∷◌ c rest

-- `strings.TrimSpace`
unfoldable pub trim_space : String → String
unfolding trim_left trim_right is_space
trim_space s = trim_right is_space (trim_left is_space s)

unfoldable pub onto_first : Char → List String → List String
onto_first c [] = String.◌∷◌ c "" ∷ []
onto_first c (s ∷ rest) = String.◌∷◌ c s ∷ rest

-- the parts of a text between the characters that pass the test; of `strings.Split`, and of
-- `strings.Fields` with the empty parts
unfoldable pub split : (ℕ → Bool) → String → List String
unfolding onto_first
split test String.[] = "" ∷ []
split test (String.◌∷◌ c s) =
    let rest = split test s in if test (code c) then "" ∷ rest else onto_first c rest

unfoldable pub nonempty : List String → List String
nonempty [] = []
nonempty (s ∷ rest) = let others = nonempty rest in if s == "" then others else s ∷ others

-- `strings.Fields`
unfoldable pub fields : String → List String
unfolding nonempty split is_space
fields s = nonempty (split is_space s)

-- a character of the text passes the test
unfoldable pub any_char : (ℕ → Bool) → String → Bool
any_char test String.[] = false
any_char test (String.◌∷◌ c s) = if test (code c) then true else any_char test s

unfoldable pub is_slash : ℕ → Bool
is_slash c = nat_eq c 47

-- the text after its last slash
unfoldable pub after_slash : String → String
unfolding is_slash any_char
after_slash String.[] = ""
after_slash (String.◌∷◌ c s) =
    let rest = after_slash s in if any_char is_slash (String.◌∷◌ c s) then rest else String.◌∷◌ c s

-- `filepath.Base`, on systems with `/`
unfoldable pub base : String → String
unfolding trim_right is_slash after_slash
base path =
    if path == ""
    then "."
    else let stripped = trim_right is_slash path in
      if stripped == "" then "/" else after_slash stripped
