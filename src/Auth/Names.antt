-- ===== src/Auth/Names.antt =====
-- `ValidateUsername` of internal/auth/auth.go.
pub mod Valid
use Prim.Native.String.{◌++◌}
use kterodactyl.Prelude.{
  ℕ, ◌+◌, ltb, leb, nat_eq, String, ◌==◌, Bool, true, false, ◌&&◌, ◌||◌, List, [], ◌∷◌, codes,
  if◌then◌else◌, is_digit,
}
use kterodactyl.Kube.Errors.{Err, Reply, ok, err, sentinel, detail, err_invalid_username}

-- `len` counts the bytes of UTF-8.
abbrev pub bytes_of : ℕ → ℕ
bytes_of c = if ltb c 128 then 1 else if ltb c 2048 then 2 else if ltb c 65536 then 3 else 4

unfoldable pub byte_length : List ℕ → ℕ
byte_length [] = 0
byte_length (c ∷ cs) = bytes_of c + byte_length cs

-- [a-z0-9]
unfoldable pub is_alphanumeric : ℕ → Bool
unfolding is_digit
is_alphanumeric c = (leb b'a' c && leb c b'z') || is_digit c

-- [a-z0-9-]
unfoldable pub is_label_char : ℕ → Bool
unfolding is_alphanumeric
is_label_char c = is_alphanumeric c || nat_eq c b'-'

-- ([a-z0-9-]*[a-z0-9])?
unfoldable pub matches_rest : List ℕ → Bool
matches_rest [] = true
matches_rest (c ∷ []) = is_alphanumeric c
matches_rest (c ∷ d ∷ cs) = is_label_char c && matches_rest (d ∷ cs)

-- `dnsLabelRegex.MatchString`
unfoldable pub matches_dns_label : List ℕ → Bool
unfolding is_alphanumeric is_label_char matches_rest
matches_dns_label [] = false
matches_dns_label (c ∷ cs) = is_alphanumeric c && matches_rest cs

unfoldable pub is_reserved : String → Bool
is_reserved name =
    name == "admin" || name == "system" || name == "operator" || name == "default" || name == "kube"

abbrev invalid : String → Reply (Unit {0})
invalid why = err (detail (sentinel err_invalid_username) why)

-- The format `%q` of a reserved name is the name in quotes.
unfoldable pub validate_username : String → Reply (Unit {0})
unfolding byte_length matches_dns_label is_reserved
validate_username username =
    if nat_eq (byte_length (codes username)) 0
    then invalid "username must not be empty"
    else if ltb 63 (byte_length (codes username))
    then invalid "username must be 63 characters or fewer"
    else if matches_dns_label (codes username)
    then if is_reserved username
      then invalid ("username \"" ++ (username ++ "\" is reserved"))
      else ok tt
    else invalid
        "username must be a valid DNS label (lowercase alphanumeric and hyphens, must start and end with alphanumeric)"
