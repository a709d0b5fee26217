-- ===== src/Auth/Invites/Created.antt =====
-- From the creation of an invitation to its redemption.
use kterodactyl.Prelude.{
  ℕ, ℤ, String, ◌≡◌, ◌≢◌, ◌⊎◌, inl, inr, refl, sym, ap, ◌∙◌, Bool-cases, Option, none, some,
  some_inj, text_at, lookup, true, false,
}
use kterodactyl.Kube.Errors.{Reply, ok, err, ok_inj}
use kterodactyl.Kube.Meta.{Key, key_of}
use kterodactyl.Kube.Objects.{Secret, secrets}
use kterodactyl.Kube.Memory.{same_key}
use kterodactyl.Kube.Memory.Store.{same_key_iff}
use kterodactyl.Kube.Exec.{Exec, pure, ◌>>◌}
use kterodactyl.Kube.Exec.Leaves.{
  Leaves, Leaves-pure, Leaves-fail, Leaves-attempt, Leaves-wrapping, Leaves-bind,
}
use kterodactyl.Kube.Exec.Results.{wrapping-bind-eq-ok, bind-eq-ok}
use kterodactyl.Kube.Platform.{Platform, Laws}
use kterodactyl.Kube.Platform.Frame.{stored_at}
use kterodactyl.Auth.Users.{of_reply}
use kterodactyl.Auth.Invites.{
  Services, SmtpConfig, Invitation, invite_token_length, invite_secret, duration_of_hours,
  send_invite_email, send_if_configured, invite_with, create_invite, redeem_invite,
}
use kterodactyl.Auth.Invites.Redeeming.{SecretLaws, redeem_invite_takes}

-- Random bytes and mail change no secret.
pub record ServicesLaws {S T M C : Type 0} {p : Platform S} (l : Laws p)
    (services : Services S T M C) : Type 0 where
  pub read_random_at :
      (n : ℕ) (s : S) (q : Key) → l.at secrets (services.read_random n s).1 q ≡ l.at secrets s q
  pub dial_and_send_at :
      (m : M) (c : C) (s : S) (q : Key)
      → l.at secrets (services.dial_and_send m c s).1 q ≡ l.at secrets s q

Key-cases : (a b : Key) → (a ≡ b) ⊎ (a ≢ b)
Key-cases a b = elim (Bool-cases (same_key a b)) [
  | inl e ↦ inl ((same_key_iff a b).0 e)
  | inr e ↦ inr λ h. (let bad : true ≡ false = sym ((same_key_iff a b).1 h) ∙ e in cc)
]

-- a result after an action
pure_after :
    {S A B : Type 0} {b c : B} (m : Exec S A) (s : S)
    → ((m >> pure b) s).0 ≡ ok c
    → (b ≡ c) × (((m >> pure b) s).1 ≡ (m s).1)
unfolding pure
pure_after {b = b} m s h =
    let (a, returned, rest) = bind-eq-ok m (λ a. pure b) s h in
    (ok_inj (sym (ap (λ r. r.0) rest) ∙ h), ap (λ r. r.1) rest)

-- an invitation's secret has the token and the email in its data
token_of :
    (namespace token email invited_by expires_at : String) (new : Secret)
    → new.entries ≡ (invite_secret namespace token email invited_by expires_at).entries
    → (text_at "token" new.entries ≡ token) × (text_at "email" new.entries ≡ email)
unfolding invite_secret text_at lookup
token_of namespace token email invited_by expires_at new e = rw e (refl, refl)

module _ {S T M C : Type 0} {p : Platform S} (l : Laws p) {services : Services S T M C}
    (sl : ServicesLaws l services) (namespace panel_url : String) (smtp : Option SmtpConfig) where
  Leaves-of_reply : {A X : Type 0} {look : S → X} (r : Reply A) → Leaves look (of_reply r)
  unfolding of_reply
  Leaves-of_reply (ok a) = Leaves-pure _
  Leaves-of_reply (err e) = Leaves-fail _

  Leaves-send_invite_email :
      (q : Key) (config : SmtpConfig) (email token : String)
      → Leaves
          (stored_at l secrets q)
          (send_invite_email p services namespace panel_url config email token)
  unfolding send_invite_email
  Leaves-send_invite_email q config email token =
      Leaves-bind _ _ (Leaves-wrapping _ _ (Leaves-of_reply _)) λ sent.
        Leaves-bind _ _ (Leaves-wrapping _ _ (Leaves-of_reply _)) λ msg.
          Leaves-bind _ _ (Leaves-wrapping _ _ (Leaves-of_reply _))
            λ c. Leaves-wrapping _ _ (record { same_view = λ s. sl.dial_and_send_at _ _ s q })

  Leaves-send_if_configured :
      (q : Key) (config : Option SmtpConfig) (email token : String)
      → Leaves
          (stored_at l secrets q)
          (send_if_configured p services namespace panel_url config email token)
  unfolding send_if_configured
  Leaves-send_if_configured q none email token = Leaves-pure _
  Leaves-send_if_configured q (some config) email token =
      Leaves-bind _ _ (Leaves-attempt _ (Leaves-send_invite_email q config email token))
        λ r. Leaves-pure _

  module _ (now : T) (email invited_by : String) (hours : ℤ) (s : S) where
    abbrev pub create : Exec S Invitation
    create = create_invite p services namespace panel_url smtp now email invited_by hours

    abbrev Stores : Invitation → Secret → Type 0
    Stores invitation o =
        (new : Secret) × (l.at secrets s (key_of o.meta) ≡ none)
        × (l.at secrets (create s).1 (key_of o.meta) ≡ some new)
        × (text_at "token" new.entries ≡ invitation.token)
        × (text_at "email" new.entries ≡ email)
        × ((q : Key) → q ≢ key_of o.meta → l.at secrets (create s).1 q ≡ l.at secrets s q)

    stored_by :
        (t : S) (same : (q : Key) → l.at secrets t q ≡ l.at secrets s q) (expires_at token : String)
        {invitation : Invitation}
        → let o = invite_secret namespace token email invited_by expires_at in
          (create s
            ≡ invite_with p services namespace panel_url smtp email invited_by expires_at token t)
          → (invite_with p services namespace panel_url smtp email invited_by expires_at token t).0
            ≡ ok invitation
          → Stores invitation o
    unfolding invite_with
    stored_by t same expires_at token {invitation = invitation} whole h =
        let o = invite_secret namespace token email invited_by expires_at in
        let (o', made, rest) =
          wrapping-bind-eq-ok "failed to create invite secret" (p.create secrets o) _ t h in
        let (absent, (new, stored, labels, entries)) = l.create_secret_ok o t made in
        let send = send_if_configured p services namespace panel_url smtp email token in
        let (given, state) =
          pure_after send (p.create secrets o t).1 (sym (ap (λ r. r.0) rest) ∙ h) in
        let (has_token, has_email) =
          token_of namespace token email invited_by expires_at new entries in
        let after : (q : Key)
            → l.at secrets (create s).1 q ≡ l.at secrets (p.create secrets o t).1 q =
          λ q.
            ap (λ x. l.at secrets x q) (ap (λ r. r.1) whole ∙ ap (λ r. r.1) rest ∙ state)
            ∙ (Leaves-send_if_configured q smtp email token).same_view (p.create secrets o t).1 in
        (
          new,
          sym (same (key_of o.meta)) ∙ absent,
          after (key_of o.meta) ∙ stored,
          has_token ∙ ap (λ i. i.token) given,
          has_email,
          λ q n. after q ∙ l.create_other secrets o t q n ∙ same q,
        )

    created :
        {invitation : Invitation}
        → (create s).0 ≡ ok invitation
        → (o : Secret) × Stores invitation o
    unfolding create_invite
    created h =
        let (token_bytes, read, rest) =
          wrapping-bind-eq-ok "failed to generate invite token"
            (services.read_random invite_token_length) _ s h in
        let expires_at = services.format_rfc3339 (services.add now (duration_of_hours hours)) in
        let token = services.encode_to_string token_bytes in
        (
          invite_secret namespace token email invited_by expires_at,
          stored_by (services.read_random invite_token_length s).1
              (λ q. sl.read_random_at invite_token_length s q) expires_at token rest
              (sym (ap (λ r. r.0) rest) ∙ h),
        )

    -- Where no stored secret has the token of a new invitation, who redeems the token of an invitation
    -- that was created, and is given an email, is given the one that the invitation was created for;
    -- and the stored secrets are then those from before the creation.
    pub create_invite-redeem_invite :
        (k : SecretLaws l) (later : T) (q : Key) {invitation : Invitation} {found : String}
        → (create s).0 ≡ ok invitation
        → ((r : Key) (o : Secret)
            → l.at secrets s r ≡ some o
            → text_at "token" o.entries ≢ invitation.token)
        → (redeem_invite p services namespace later invitation.token (create s).1).0 ≡ ok found
        → (found ≡ email)
          × (l.at secrets
                (redeem_invite p services namespace later invitation.token (create s).1).1
                q
              ≡ l.at secrets s q)
    create_invite-redeem_invite k later q {invitation = invitation} h fresh r =
        let after = (redeem_invite p services namespace later invitation.token (create s).1).1 in
        let (o, (new, absent, stored, has_token, has_email, others)) = created h in
        let (invite, there, own, managed, typed, same_token, same_email, valid, gone, elsewhere) =
          redeem_invite_takes l k services namespace later invitation.token (create s).1 q r in
        elim (Key-cases (key_of invite.meta) (key_of o.meta)) [
          | inr away ↦ absurd (
              fresh (key_of invite.meta) invite (sym (others (key_of invite.meta) away) ∙ there)
                same_token)
          | inl here ↦
              (let same : invite ≡ new =
                  some_inj (sym there ∙ ap (λ x. l.at secrets (create s).1 x) here ∙ stored) in
                (
                  sym same_email ∙ ap (λ x. text_at "email" x.entries) same ∙ has_email,
                  elim (Key-cases q (key_of invite.meta)) [
                    | inl at_q ↦
                        ap (λ x. l.at secrets after x) at_q
                        ∙ gone
                        ∙ sym absent
                        ∙ ap (λ x. l.at secrets s x) (sym here ∙ sym at_q)
                    | inr not_q ↦ elim elsewhere [
                      | inl kept ↦ kept ∙ others q (λ e. not_q (e ∙ sym here))
                      | inr at_q ↦ absurd (not_q at_q)
                    ]
                  ],
                ))
        ]
