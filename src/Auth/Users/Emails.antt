-- ===== src/Auth/Users/Emails.antt =====
-- The search of `GetUserByEmail`.
use kterodactyl.Prelude.{
  String, ◌==◌, ◌≡◌, ◌⊎◌, inl, inr, refl, Bool, true, not, Bool-cases, List, [], ◌∷◌, all, text_at,
  eq_iff,
}
use kterodactyl.Kube.Errors.{ok, err, sentinel, err_user_not_found}
use kterodactyl.Kube.Objects.{Secret}
use kterodactyl.Auth.Users.{user_from_secret, find_email}

pub data IsIn (secret : Secret) : List Secret → Type 0 where
  here : {rest : List Secret} → IsIn secret (secret ∷ rest)
  later : {other : Secret} {rest : List Secret} → IsIn secret rest → IsIn secret (other ∷ rest)

abbrev pub has_email : String → Secret → Bool
unfolding text_at
has_email email secret = text_at "email" secret.entries == email

abbrev pub Found : String → List Secret → Type 0
Found email items =
    (secret : Secret) × IsIn secret items
    × (find_email email items ≡ ok (user_from_secret secret))
    × ((user_from_secret secret).email ≡ email)

abbrev pub NotFound : String → List Secret → Type 0
unfolding has_email
NotFound email items =
    (find_email email items ≡ err (sentinel err_user_not_found))
    × (all (λ secret. not (has_email email secret)) items ≡ true)

-- The search returns a user with the given email, read from one of the listed secrets, or says that
-- there is no such user, and then no listed secret has the email.
pub find_email-cases :
    (email : String) (items : List Secret) → Found email items ⊎ NotFound email items
unfolding find_email user_from_secret has_email NotFound
find_email-cases email [] = inr (refl, refl)
find_email-cases email (secret ∷ rest) =
    elim (Bool-cases (text_at "email" secret.entries == email)) [
      | inl h ↦ inl (secret, here, rw h refl, (eq_iff (text_at "email" secret.entries) email).0 h)
      | inr h ↦ elim (find_email-cases email rest) [
        | inl (found, place, result, same) ↦ inl (found, later place, rw h result, same)
        | inr (result, none_has) ↦ inr (rw h result, rw h none_has)
      ]
    ]
