-- ===== src/Auth/Names/Valid.antt =====
-- Which names `ValidateUsername` accepts.
use kterodactyl.Prelude.{
  ℕ, ◌≤◌, ltb, nat_eq, String, ◌≡◌, ◌↔◌, Bool, true, false, ◌&&◌, List, [], ◌∷◌, codes, all,
  head_or, if◌then◌else◌, arith,
}
use kterodactyl.Kube.Errors.{Err, Reply, ok, err}
use kterodactyl.Auth.Names.{
  byte_length, is_alphanumeric, is_label_char, matches_rest, matches_dns_label, is_reserved,
  validate_username,
}

-- the last of a list
pub last_or : ℕ → List ℕ → ℕ
last_or c [] = c
last_or c (d ∷ cs) = last_or d cs

matches_rest_lem :
    (c : ℕ) (cs : List ℕ)
    → matches_rest (c ∷ cs) ≡ (all is_label_char (c ∷ cs) && is_alphanumeric (last_or c cs))
unfolding matches_rest is_label_char last_or
matches_rest_lem c [] = ground arith
matches_rest_lem c (d ∷ cs) = ground (arith, matches_rest_lem d cs)

matches_dns_label_lem :
    (c : ℕ) (cs : List ℕ)
    → matches_dns_label (c ∷ cs)
      ≡ (is_alphanumeric c && (all is_label_char (c ∷ cs) && is_alphanumeric (last_or c cs)))
unfolding matches_dns_label is_label_char last_or matches_rest
matches_dns_label_lem c [] = ground arith
matches_dns_label_lem c (d ∷ cs) = ground (arith, matches_rest_lem d cs)

-- four tests in a row, the first two and the last of which refuse
abbrev accepted : Reply (Unit {0})
accepted = ok tt

refusals-eq-ok :
    (a b c d : Bool) (e f g h : Err)
    → ((if a
          then err e
          else if b
          then err f
          else if c
          then if d then err g else accepted
          else err h)
        ≡ accepted)
      ↔ ((a ≡ false) × (b ≡ false) × (c ≡ true) × (d ≡ false))
refusals-eq-ok a b c d e f g h = ground arith

validate_username_tests :
    (username : String)
    → (validate_username username ≡ ok tt) ↔ (
        (nat_eq (byte_length (codes username)) 0 ≡ false)
        × (ltb 63 (byte_length (codes username)) ≡ false)
        × (matches_dns_label (codes username) ≡ true)
        × (is_reserved username ≡ false))
unfolding validate_username
validate_username_tests username = refusals-eq-ok _ _ _ _ _ _ _ _

-- A name of 1 to 63 bytes, of the letters a to z, digits and hyphens, with a letter or a digit at
-- both ends, that is not reserved.
pub record IsUserName (username : String) : Type 0 where
  pub short : byte_length (codes username) ≤ 63
  pub first : is_alphanumeric (head_or 0 (codes username)) ≡ true
  pub last : is_alphanumeric (last_or 0 (codes username)) ≡ true
  pub chars : all is_label_char (codes username) ≡ true
  pub free : is_reserved username ≡ false

matching :
    (cs : List ℕ)
    → (matches_dns_label cs ≡ true) ↔ (
        (is_alphanumeric (head_or 0 cs) ≡ true)
        × (is_alphanumeric (last_or 0 cs) ≡ true)
        × (all is_label_char cs ≡ true))
unfolding last_or matches_dns_label is_alphanumeric
matching [] = ground arith
matching (c ∷ cs) = ground (arith, matches_dns_label_lem c cs)

byte_length-pos :
    (cs : List ℕ) → is_alphanumeric (head_or 0 cs) ≡ true → nat_eq (byte_length cs) 0 ≡ false
unfolding byte_length is_alphanumeric
byte_length-pos [] h = cc
byte_length-pos (c ∷ cs) h = ground arith

-- `ValidateUsername` accepts exactly the names of 1 to 63 bytes that are made of the letters a to z,
-- digits and hyphens, have a letter or a digit at both ends, and are not reserved.
pub validate_username_iff :
    (username : String) → (validate_username username ≡ ok tt) ↔ IsUserName username
validate_username_iff username =
    let (there, back) = validate_username_tests username in
    let (split, join) = matching (codes username) in
    (
      λ h.
          let (a, b, c, d) = there h in
          let (first, last, chars) = split c in
          record { short = ground (arith, b); first = first; last = last; chars = chars; free = d },
      λ k. back (
        byte_length-pos (codes username) k.first,
        (let h = k.short in ground (arith, h)),
        join (k.first, k.last, k.chars),
        k.free,
      ),
    )
