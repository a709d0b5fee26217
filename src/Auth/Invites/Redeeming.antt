-- ===== src/Auth/Invites/Redeeming.antt =====
-- What a redeemed invitation was, and that it is gone.
use kterodactyl.Prelude.{
  ℕ, String, ◌==◌, ◌≡◌, ◌⊎◌, inl, inr, refl, sym, ap, subst, ◌∙◌, false, Bool-cases, Option, none,
  some, some_inj, Option-cases, List, [], ◌∷◌, All, text_at, lookup, eq_iff,
}
use kterodactyl.Kube.Errors.{Err, sentinel, err_invite_expired, ok, err, ok_inj}
use kterodactyl.Kube.Meta.{Key, key_of}
use kterodactyl.Kube.Objects.{Secret, secrets}
use kterodactyl.Kube.Exec.{Exec, ◌>>◌, pure, fail, attempt, wrapping, ◌>>=◌}
use kterodactyl.Kube.Exec.Results.{wrapping-bind-eq-ok}
use kterodactyl.Kube.Platform.{Platform, Laws, IsIn, HasLabels}
use kterodactyl.Auth.Invites.{
  Services, invite_labels, find_token, is_expired, redeem_found, redeem_invite,
}

-- a deletion of a secret, which has no finalizers
pub record SecretLaws {S : Type 0} {p : Platform S} (l : Laws p) : Type 0 where
  pub delete_secret_at :
      (o : Secret) (grace : Option ℕ) (s : S) (q : Key)
      → (l.at secrets (p.delete secrets o grace s).1 q ≡ l.at secrets s q)
        ⊎ ((q ≡ key_of o.meta) × (l.at secrets (p.delete secrets o grace s).1 q ≡ none))
  pub delete_secret_ok :
      (o : Secret) (grace : Option ℕ) (s : S) {u : Unit {0}}
      → (p.delete secrets o grace s).0 ≡ ok u
      → l.at secrets (p.delete secrets o grace s).1 (key_of o.meta) ≡ none

-- The secret that the search finds is one of the list, and has the token.
token_found :
    (P : Secret → Type 0) (token : String) (items : List Secret) {secret : Secret}
    → All P items
    → find_token token items ≡ some secret
    → P secret × (text_at "token" secret.entries ≡ token)
unfolding find_token
token_found P token [] h e = cc
token_found P token (o ∷ items) {secret = secret} h e =
    elim (Bool-cases (text_at "token" o.entries == token)) [
      | inl f ↦
          (let same : o ≡ secret = some_inj (rw f at e) in
            (
              subst P same h.0,
              ap (λ x. text_at "token" x.entries) (sym same)
                  ∙ (eq_iff (text_at "token" o.entries) token).0 f,
            ))
      | inr f ↦ token_found P token items h.1 (rw f at e)
    ]

-- an error after an action whose own error is dropped
fails_after :
    {S A B : Type 0} (m : Exec S A) (e : Err) (s : S) → ((attempt m >> fail {A = B} e) s).0 ≡ err e
unfolding ◌>>=◌ attempt fail
fails_after m e s = refl

-- a result after an action that succeeds
after_wrapped :
    {S A : Type 0} {a b : A} (context : String) (m : Exec S (Unit {0})) (s : S)
    → ((wrapping context m >> pure a) s).0 ≡ ok b
    → ((m s).0 ≡ ok tt) × (a ≡ b) × (((wrapping context m >> pure a) s).1 ≡ (m s).1)
unfolding pure
after_wrapped {a = a} context m s h =
    let (u, returned, rest) = wrapping-bind-eq-ok context m (λ u. pure a) s h in
    (returned, ok_inj (sym (ap (λ r. r.0) rest) ∙ h), ap (λ r. r.1) rest)

module _ {S T M C : Type 0} {p : Platform S} (l : Laws p) (k : SecretLaws l)
    (services : Services S T M C) (namespace : String) (now : T) where
  accepted_invite :
      (secret : Secret) (s : S) {email : String}
      → (redeem_found p services namespace now (some secret) s).0 ≡ ok email
      → (is_expired services now secret ≡ false)
        × (text_at "email" secret.entries ≡ email)
        × ((p.delete secrets secret none s).0 ≡ ok tt)
        × ((redeem_found p services namespace now (some secret) s).1
            ≡ (p.delete secrets secret none s).1)
  unfolding redeem_found
  accepted_invite secret s {email = email} h = elim (Bool-cases (is_expired services now secret)) [
    | inl e ↦
        (let refused_first =
            fails_after (p.delete secrets secret none) (sentinel err_invite_expired) s in
          let bad : err (sentinel err_invite_expired) ≡ ok email =
            sym refused_first ∙ (rw e at h) in
          cc)
    | inr e ↦
        (let (gone, mail, state) =
            after_wrapped "failed to delete redeemed invite secret" (p.delete secrets secret none) s
              (rw e at h) in
          (e, mail, gone, rw e state))
  ]

  refused :
      (s : S) {email : String} → (redeem_found p services namespace now none s).0 ≡ ok email → ⊥
  unfolding redeem_found fail
  refused s h = cc

  -- A redemption that returns an email is of a secret of the operator's namespace that carries the
  -- labels of an invitation; it was stored, with the token and the email, and had not expired. It is
  -- gone afterwards, and any other secret is as it was.
  pub redeem_invite_takes :
      (token : String) (s : S) (q : Key) {email : String}
      → (redeem_invite p services namespace now token s).0 ≡ ok email
      → (invite : Secret) × (l.at secrets s (key_of invite.meta) ≡ some invite)
        × (invite.meta.namespace ≡ namespace)
        × (lookup "kterodactyl.io/managed-by" invite.meta.labels ≡ some "kterodactyl")
        × (lookup "kterodactyl.io/resource-type" invite.meta.labels ≡ some "invite")
        × (text_at "token" invite.entries ≡ token)
        × (text_at "email" invite.entries ≡ email)
        × (is_expired services now invite ≡ false)
        × (l.at secrets (redeem_invite p services namespace now token s).1 (key_of invite.meta)
            ≡ none)
        × ((l.at secrets (redeem_invite p services namespace now token s).1 q ≡ l.at secrets s q)
            ⊎ (q ≡ key_of invite.meta))
  unfolding redeem_invite
  redeem_invite_takes token s q {email = email} h =
      let read = p.list secrets (some namespace) invite_labels in
      let (items, listed, rest) = wrapping-bind-eq-ok "failed to list invite secrets" read _ s h in
      elim (Option-cases (find_token token items)) [
        | inl e ↦
            (let missing = ap (λ o. redeem_found p services namespace now o (read s).1) e in
              let bad = sym (ap (λ r. r.0) (rest ∙ missing)) ∙ h in absurd (refused (read s).1 bad))
        | inr (invite, e) ↦
            (let (stored, has) =
                token_found (λ o. l.at secrets s (key_of o.meta) ≡ some o) token items
                  (l.list_ok secrets (some namespace) invite_labels s listed) e in
              let ((own, (managed, (typed, end))), _) =
                token_found (λ o. IsIn (some namespace) o.meta × HasLabels invite_labels o.meta)
                  token items (l.list_selected secrets (some namespace) invite_labels s listed) e in
              let whole = rest ∙ ap (λ o. redeem_found p services namespace now o (read s).1) e in
              let (fresh, mail, gone, state) =
                accepted_invite invite (read s).1 (sym (ap (λ r. r.0) whole) ∙ h) in
              let after = ap (λ r. r.1) whole ∙ state in
              (
                invite,
                stored,
                own,
                managed,
                typed,
                has,
                mail,
                fresh,
                ap (λ t. l.at secrets t (key_of invite.meta)) after
                    ∙ k.delete_secret_ok invite none (read s).1 gone,
                elim (k.delete_secret_at invite none (read s).1 q) [
                  | inl same ↦ inl (
                      ap (λ t. l.at secrets t q) after
                      ∙ same
                      ∙ l.list_at secrets (some namespace) invite_labels s secrets q)
                  | inr (here, none_there) ↦ inr here
                ],
              ))
      ]
