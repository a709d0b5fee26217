-- ===== src/Auth/Users/Stored.antt =====
-- What `CreateUser` has stored, as `GetUser` reads it.
use kterodactyl.Prelude.{
  String, ◌≡◌, refl, sym, ap, ◌∙◌, some, none, some_inj, Bool-cases, inl, inr, text_at, lookup,
}
use kterodactyl.Kube.Errors.{Reply, ok, err, ok_inj, is_not_found, is_already_exists}
use kterodactyl.Kube.Objects.{Secret, secrets}
use kterodactyl.Kube.Exec.{pure, fail, attempt, ◌>>=◌}
use kterodactyl.Kube.Exec.Results.{bind-eq-ok}
use kterodactyl.Kube.Platform.{Platform, Laws}
use kterodactyl.Auth.Names.{validate_username}
use kterodactyl.Auth.Names.Valid.{IsUserName, validate_username_iff}
use kterodactyl.Auth.Users.{
  User, user_key, user_secret, user_from_secret, stored_user, returned_user, of_reply, create_user,
  get_user,
}

module _ {S : Type 0} where
  of_reply-eq-ok :
      {A : Type 0} (r : Reply A) (s : S) {a : A}
      → (of_reply r s).0 ≡ ok a
      → (r ≡ ok a) × ((of_reply r s).1 ≡ s)
  unfolding of_reply pure fail
  of_reply-eq-ok (ok a) s h = (h, refl)
  of_reply-eq-ok (err e) s h = cc

  stored_user-eq-ok :
      (r : Reply Secret) (s : S) {u : Unit {0}}
      → (stored_user r s).0 ≡ ok u
      → (secret : Secret) × (r ≡ ok secret) × ((stored_user r s).1 ≡ s)
  unfolding stored_user pure fail
  stored_user-eq-ok (ok secret) s h = (secret, refl, refl)
  stored_user-eq-ok (err e) s h = elim (Bool-cases (is_already_exists e)) [
    | inl f ↦ let bad : err _ ≡ ok _ = rw f at h in cc
    | inr f ↦ let bad : err _ ≡ ok _ = rw f at h in cc
  ]

  returned_user-eq-ok :
      (context : String) (r : Reply Secret) (s : S) {secret : Secret}
      → (returned_user context r s).0 ≡ ok secret
      → r ≡ ok secret
  unfolding returned_user pure fail
  returned_user-eq-ok context (ok secret) s h = h
  returned_user-eq-ok context (err e) s h = elim (Bool-cases (is_not_found e)) [
    | inl f ↦ let bad : err _ ≡ ok _ = rw f at h in cc
    | inr f ↦ let bad : err _ ≡ ok _ = rw f at h in cc
  ]

user_from-user_secret :
    (namespace : String) (user : User) (secret : Secret)
    → secret.meta.labels ≡ (user_secret namespace user).meta.labels
    → secret.entries ≡ (user_secret namespace user).entries
    → user_from_secret secret ≡ user
unfolding user_from_secret user_secret text_at lookup
user_from-user_secret namespace user secret h k = rw (h, k) refl

module _ {S : Type 0} {p : Platform S} (l : Laws p) (namespace : String) (user : User) (s : S) where
  -- a creation that succeeds: the name is valid, and the secret was created
  created_user :
      {u : Unit {0}}
      → (create_user p namespace user s).0 ≡ ok u
      → (validate_username user.username ≡ ok tt)
        × ((o : Secret) × ((p.create secrets (user_secret namespace user) s).0 ≡ ok o))
        × ((create_user p namespace user s).1 ≡ (p.create secrets (user_secret namespace user) s).1)
  unfolding create_user ◌>>=◌
  created_user h =
      let check = of_reply (validate_username user.username) in
      let create = attempt (p.create secrets (user_secret namespace user)) >>= stored_user in
      let (u, valid, first) = bind-eq-ok check (λ _. create) s h in
      let (is_valid, same) = of_reply-eq-ok (validate_username user.username) s valid in
      let full = first ∙ ap create same in
      let (o, made, done) =
        stored_user-eq-ok (p.create secrets (user_secret namespace user) s).0
          (p.create secrets (user_secret namespace user) s).1 (sym (ap (λ r. r.0) full) ∙ h) in
      (is_valid, (o, made), ap (λ r. r.1) full ∙ done)

  -- what `get_user` returns is read from the secret that is stored
  returned :
      (username : String) (t : S) {found : User}
      → (get_user p namespace username t).0 ≡ ok found
      → (stored : Secret) × (l.at secrets t (user_key namespace username) ≡ some stored)
        × (user_from_secret stored ≡ found)
  unfolding get_user ◌>>=◌
  returned username t h =
      let read = attempt (p.get secrets (user_key namespace username)) in
      let take = returned_user "failed to get user secret" in
      let finish = λ (stored : Secret). pure {S = S} (user_from_secret stored) in
      let (stored, taken, rest) =
        bind-eq-ok (take (p.get secrets (user_key namespace username) t).0) finish
          (p.get secrets (user_key namespace username) t).1 h in
      (
        stored,
        (l.get_ok secrets (user_key namespace username) t
            (returned_user-eq-ok "failed to get user secret" _ _ taken)).0,
        ok_inj (sym (ap (λ r. r.0) rest) ∙ h),
      )

  -- A user who was created has a valid name that no user had, and who reads the user back gets the
  -- same user, with every field as it was given.
  pub create_user-get_user :
      {u : Unit {0}} {found : User}
      → (create_user p namespace user s).0 ≡ ok u
      → (get_user p namespace user.username (create_user p namespace user s).1).0 ≡ ok found
      → IsUserName user.username
        × (l.at secrets s (user_key namespace user.username) ≡ none)
        × (found ≡ user)
  unfolding user_secret
  create_user-get_user h k =
      let (valid, (o, made), after) = created_user h in
      let (fresh, (new, stored, labels, entries)) =
        l.create_secret_ok (user_secret namespace user) s made in
      let (read, at_key, value) = returned user.username (create_user p namespace user s).1 k in
      let same : read ≡ new =
        some_inj (
          sym at_key
          ∙ ap (λ t. l.at secrets t (user_key namespace user.username)) after
          ∙ stored) in
      (
        (validate_username_iff user.username).0 valid,
        fresh,
        sym value
            ∙ ap user_from_secret same
            ∙ user_from-user_secret namespace user new labels entries,
      )
