-- ===== src/Prelude/Decimal.antt =====
-- Reading back a number that was printed.
use Prim.Native.Nat.{ℕ, zero, suc, ◌+◌, ◌*◌, ◌/◌, ◌%◌, ◌^◌, ◌<◌}
use Prim.Native.Char.{code}
use Prim.Native.String.{String}
use mathlib.Core.Path.{◌≡◌, refl, ap, ◌∙◌}
use mathlib.Core.Logic.{inl, inr}
use mathlib.Core.Bool.{false}
use mathlib.Core.Option.{some}
use mathlib.Core.List.{List, ◌∷◌}
use native.Mathlib.Omega.{arith}
use kterodactyl.Prelude.Tests.{Bool-cases, le→leb, ltb, ltb→lt}
use kterodactyl.Prelude.Numbers.{
  pos, codes, is_digit, digits_from, digits, signed, atoi_codes, atoi, digit_char, itoa_onto, itoa,
}

code-digit_char : (d : ℕ) → d < 10 → code (digit_char d) ≡ d + 48
unfolding digit_char
code-digit_char zero h = refl
code-digit_char (suc zero) h = refl
code-digit_char (suc (suc zero)) h = refl
code-digit_char (suc (suc (suc zero))) h = refl
code-digit_char (suc (suc (suc (suc zero)))) h = refl
code-digit_char (suc (suc (suc (suc (suc zero))))) h = refl
code-digit_char (suc (suc (suc (suc (suc (suc zero)))))) h = refl
code-digit_char (suc (suc (suc (suc (suc (suc (suc zero))))))) h = refl
code-digit_char (suc (suc (suc (suc (suc (suc (suc (suc zero)))))))) h = refl
code-digit_char (suc (suc (suc (suc (suc (suc (suc (suc (suc zero))))))))) h = refl
code-digit_char (suc (suc (suc (suc (suc (suc (suc (suc (suc (suc d)))))))))) h =
    absurd (omega arith)

-- one digit more
digits_from-digit :
    (n d : ℕ) (cs : List ℕ)
    → d < 10
    → digits_from n (code (digit_char d) ∷ cs) ≡ digits_from (n * 10 + d) cs
unfolding digits_from is_digit
digits_from-digit n d cs h =
    rw (code-digit_char d h, le→leb 48 (d + 48) (omega arith), le→leb (d + 48) 57 (omega arith))
      (ap (λ m. digits_from (n * 10 + m) cs) (omega arith))

digits_from-itoa_onto :
    (fuel n : ℕ) (s : String)
    → n < fuel
    → digits_from 0 (codes (itoa_onto fuel n s)) ≡ digits_from n (codes s)
unfolding itoa_onto
digits_from-itoa_onto zero n s h = absurd (omega arith)
digits_from-itoa_onto (suc fuel) n s h = elim (Bool-cases (ltb n 10)) [
  | inl e ↦ rw e (
      digits_from-digit 0 n (codes s) (ltb→lt n 10 e)
      ∙ ap (λ m. digits_from m (codes s)) (omega arith))
  | inr e ↦ rw e (
      digits_from-itoa_onto fuel (n / 10) (String.◌∷◌ (digit_char (n % 10)) s) (ground arith)
      ∙ digits_from-digit (n / 10) (n % 10) (codes s) (omega arith)
      ∙ ap (λ m. digits_from m (codes s)) (omega arith))
]

-- The first character of a number is a digit.
head_digit :
    (fuel n : ℕ) (s : String)
    → n < fuel
    → (d : ℕ) × (rest : List ℕ) × (d < 10) × (codes (itoa_onto fuel n s) ≡ (d + 48) ∷ rest)
unfolding itoa_onto
head_digit zero n s h = absurd (omega arith)
head_digit (suc fuel) n s h = elim (Bool-cases (ltb n 10)) [
  | inl e ↦
      rw e (n, codes s, ltb→lt n 10 e, ap (λ c. c ∷ codes s) (code-digit_char n (ltb→lt n 10 e)))
  | inr e ↦ rw e (head_digit fuel (n / 10) (String.◌∷◌ (digit_char (n % 10)) s) (ground arith))
]

atoi_codes-digits :
    (cs : List ℕ) (d : ℕ) (rest : List ℕ)
    → cs ≡ (d + 48) ∷ rest
    → d < 10
    → atoi_codes cs ≡ signed false (digits_from 0 cs)
unfolding atoi_codes digits
atoi_codes-digits cs d rest e h = rw e (ground arith)

-- Atoi reads back what Itoa prints, up to the largest 64-bit integer.
pub atoi-itoa : (n : ℕ) → n < 2 ^ 63 → atoi (itoa n) ≡ some (pos n)
unfolding atoi itoa
atoi-itoa n h =
    let (d, rest, digit, e) = head_digit (suc n) n "" (omega arith) in
    atoi_codes-digits (codes (itoa_onto (suc n) n "")) d rest e digit
    ∙ ap (signed false) (digits_from-itoa_onto (suc n) n "" (omega arith))
    ∙ in_range
  where
    in_range : signed false (digits_from n (codes "")) ≡ some (pos n)
    in_range = ground arith
