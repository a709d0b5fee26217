-- ===== src/Api/Users.antt =====
-- What the handler that deletes a user takes away.
use kterodactyl.Prelude.{String, ◌==◌, ◌≡◌, ◌⊎◌, inl, inr, refl, ap, ◌∙◌, Bool-cases, false, none}
use kterodactyl.Kube.Errors.{Reply, ok, err, is_not_found}
use kterodactyl.Kube.Meta.{Key, key_of}
use kterodactyl.Kube.Objects.{Secret, secrets}
use kterodactyl.Kube.Exec.{pure, fail, attempt, wrapping, ◌>>=◌}
use kterodactyl.Kube.Platform.{Platform, Laws}
use kterodactyl.Auth.Users.{user_key, returned_user, delete_user}
use kterodactyl.Auth.Invites.Redeeming.{SecretLaws}
use kterodactyl.Api.Responses.{respond_json, respond_error}
use kterodactyl.Api.Admin.{is_user_not_found, user_deleted, handle_delete_user}

module _ {S : Type 0} {p : Platform S} (l : Laws p) (k : SecretLaws l)
    (namespace username : String) where
  abbrev Takes : S → S → Key → Type 0
  Takes s s' q =
      (l.at secrets s' q ≡ l.at secrets s q)
      ⊎ ((q ≡ user_key namespace username) × (l.at secrets s' q ≡ none))

  taken :
      (r : Reply Secret) (t : S) (q : Key)
      → ((secret : Secret) → r ≡ ok secret → key_of secret.meta ≡ user_key namespace username)
      → Takes t
          ((returned_user "failed to get user secret for deletion" r >>= λ secret.
              wrapping "failed to delete user secret" (p.delete secrets secret none))
            t).1
          q
  unfolding ◌>>=◌ returned_user pure fail wrapping
  taken (ok secret) t q own = elim (k.delete_secret_at secret none t q) [
    | inl same ↦ inl same
    | inr (here, gone) ↦ inr (here ∙ own secret refl, gone)
  ]
  taken (err e) t q own = elim (Bool-cases (is_not_found e)) [
    | inl f ↦ inl (rw f refl)
    | inr f ↦ inl (rw f refl)
  ]

  delete_user-Takes : (s : S) (q : Key) → Takes s (delete_user p namespace username s).1 q
  unfolding delete_user ◌>>=◌ attempt
  delete_user-Takes s q =
      let key = user_key namespace username in
      elim (taken (p.get secrets key s).0 (p.get secrets key s).1 q
        λ secret e. (l.get_ok secrets key s e).1) [
          | inl same ↦ inl (same ∙ l.get_at secrets key s secrets q)
          | inr gone ↦ inr gone
        ]

  user_deleted-state : (r : Reply (Unit {0})) (t : S) → (user_deleted p namespace r t).1 ≡ t
  unfolding user_deleted respond_json respond_error pure
  user_deleted-state (ok u) t = refl
  user_deleted-state (err e) t = elim (Bool-cases (is_user_not_found e)) [
    | inl f ↦ rw f refl
    | inr f ↦ rw f refl
  ]

  -- Whatever the answer, a request to delete a user leaves each secret as it was, or the secret is the
  -- one of that user, who is not the one who asks, and it is gone.
  pub handle_delete_user_takes :
      (admin_username : String) (s : S) (q : Key)
      → (l.at secrets (handle_delete_user p namespace admin_username username s).1 q
          ≡ l.at secrets s q)
        ⊎ ((q ≡ user_key namespace username)
            × ((admin_username == username) ≡ false)
            × (l.at secrets (handle_delete_user p namespace admin_username username s).1 q ≡ none))
  unfolding handle_delete_user respond_error pure ◌>>=◌ attempt
  handle_delete_user_takes admin_username s q = elim (Bool-cases (username == "")) [
    | inl e ↦ inl (rw e refl)
    | inr e ↦ elim (Bool-cases (admin_username == username)) [
      | inl f ↦ inl (rw (e, f) refl)
      | inr f ↦ elim (delete_user-Takes s q) [
        | inl same ↦ inl (
            rw (e, f)
              (ap (λ t. l.at secrets t q)
                  (user_deleted-state (delete_user p namespace username s).0 _)
                ∙ same))
        | inr (here, gone) ↦ inr (
          here,
          f,
          rw (e, f)
              (ap (λ t. l.at secrets t q)
                  (user_deleted-state (delete_user p namespace username s).0 _)
                ∙ gone),
        )
      ]
    ]
  ]
