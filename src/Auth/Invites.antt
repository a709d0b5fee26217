-- ===== src/Auth/Invites.antt =====
-- `InviteService` of internal/auth/invite.go: invitations are secrets of the operator's namespace.
-- Random bytes, times and mail are libraries.
pub mod Redeeming
pub mod Created
use Prim.Native.String.{◌++◌}
use kterodactyl.Prelude.{
  ℕ, zero, suc, ◌+◌, ◌-◌, ◌*◌, ◌%◌, ◌^◌, ltb, ℤ, pos, negsuc, String, ◌==◌, Bool, false, Option,
  none, some, List, [], ◌∷◌, Dict, lookup, text_at, if◌then◌else◌,
}
use kterodactyl.Labels.{label_managed_by_kterodactyl, managed_by_value}
use kterodactyl.Kube.Errors.{Reply, sentinel, err_invalid_token, err_invite_expired}
use kterodactyl.Kube.Meta.{new_meta}
use kterodactyl.Kube.Objects.{Secret, secrets}
use kterodactyl.Kube.Exec.{Exec, pure, fail, wrapping, attempt, ◌>>=◌, ◌>>◌}
use kterodactyl.Kube.Platform.{Platform}
use kterodactyl.Auth.Users.{label_resource_type, of_reply}

pub record SmtpConfig : Type 0 where
  pub host : String
  pub port : ℤ
  pub from : String
  pub username : String
  pub password : String

pub record Invitation : Type 0 where
  pub token : String
  pub email : String
  pub invited_by : String
  pub expires_at : String

-- the libraries: `T` is time.Time, `M` a mail and `C` a mail client
pub record Services (S T M C : Type 0) : Type 0 where
  -- rand.Read of a number of bytes, and hex.EncodeToString
  pub read_random : ℕ → Exec S (List ℕ)
  pub encode_to_string : List ℕ → String
  -- Add of a Duration, After, and Format and Parse with RFC 3339
  pub add : T → ℤ → T
  pub is_after : T → T → Bool
  pub format_rfc3339 : T → String
  pub parse_rfc3339 : String → Option T
  -- mail.NewMsg, and the From, To, Subject and HTML body of a mail
  pub new_msg : M
  pub set_from : String → M → Reply M
  pub set_to : String → M → Reply M
  pub set_subject : String → M → M
  pub set_html : String → M → M
  -- mail.NewClient with a port and opportunistic TLS, the user name and password, DialAndSend
  pub new_mail_client : String → ℤ → Reply C
  pub with_auth : String → String → C → C
  pub dial_and_send : M → C → Exec S (Unit {0})

abbrev invite_token_length : ℕ
invite_token_length = 32

abbrev invite_secret_prefix : String
invite_secret_prefix = "invite-"

abbrev resource_type_invite : String
resource_type_invite = "invite"

abbrev pub invite_labels : Dict String
invite_labels =
    (label_managed_by_kterodactyl, managed_by_value)
    ∷ (label_resource_type, resource_type_invite)
    ∷ []

abbrev pub annotation_expires_at : String
annotation_expires_at = "kterodactyl.io/expires-at"

-- an `int64` from its 64 bits
unfoldable pub signed_64 : ℕ → ℤ
signed_64 n = if ltb n (2 ^ 63) then pos n else negsuc (2 ^ 64 - 1 - n)

abbrev nanoseconds_per_hour : ℕ
nanoseconds_per_hour = 3600000000000

-- `time.Duration(hours) * time.Hour`, which wraps around
unfoldable pub duration_of_hours : ℤ → ℤ
unfolding signed_64
duration_of_hours (pos n) = signed_64 ((n * nanoseconds_per_hour) % 2 ^ 64)
duration_of_hours (negsuc n) =
    signed_64 ((2 ^ 64 - ((n + 1) * nanoseconds_per_hour) % 2 ^ 64) % 2 ^ 64)

-- the first characters of a text; a token is hexadecimal, so each is one byte
unfoldable pub first_characters : ℕ → String → String
first_characters zero s = ""
first_characters (suc n) String.[] = ""
first_characters (suc n) (String.◌∷◌ c s) = String.◌∷◌ c (first_characters n s)

abbrev registration_link : String → String → String
registration_link panel_url token = panel_url ++ ("/register?token=" ++ token)

-- the body of the mail
unfoldable pub html_body : String → String
html_body link =
    "<!DOCTYPE html>\n<html>\n<body>\n<h2>You've been invited to Kterodactyl!</h2>\n<p>Click the link below to create your account and start managing your game servers:</p>\n<p><a href=\""
    ++ (link
        ++ "\">Register Now</a></p>\n<p>If you didn't expect this invitation, you can safely ignore this email.</p>\n</body>\n</html>")

unfoldable pub invite_secret : String → String → String → String → String → Secret
unfolding first_characters
invite_secret namespace token email invited_by expires_at = record {
  meta =
      new_meta (invite_secret_prefix ++ first_characters 12 token) namespace invite_labels
        ((annotation_expires_at, expires_at) ∷ []);
  entries = ("token", token) ∷ ("email", email) ∷ ("invited-by", invited_by) ∷ [];
}

-- the first secret with the token
unfoldable pub find_token : String → List Secret → Option Secret
unfolding text_at
find_token token [] = none
find_token token (secret ∷ items) =
    if text_at "token" secret.entries == token then some secret else find_token token items

module _ {S T M C : Type 0} (services : Services S T M C) (now : T) where
  unfoldable pub is_expired : Secret → Bool
  unfolding lookup
  is_expired secret = elim (lookup annotation_expires_at secret.meta.annotations) [
    | none ↦ false
    | some text ↦ elim (services.parse_rfc3339 text) [
      | none ↦ false
      | some expires_at ↦ services.is_after now expires_at
    ]
  ]

module _ {S T M C : Type 0} (p : Platform S) (services : Services S T M C)
    (namespace : String) where
  module _ (panel_url : String) where
    abbrev message_to : String → String → M → M
    unfolding html_body
    message_to email token msg =
        services.set_html (html_body (registration_link panel_url token))
          (services.set_subject "You've been invited to Kterodactyl" msg)

    abbrev authenticated : SmtpConfig → C → C
    authenticated smtp c =
        if smtp.username == "" then c else services.with_auth smtp.username smtp.password c

    unfoldable pub send_invite_email : SmtpConfig → String → String → Exec S (Unit {0})
    unfolding of_reply message_to
    send_invite_email smtp email token = do
      sent ←
          wrapping "failed to set from address"
            (of_reply (services.set_from smtp.from services.new_msg))
      msg ← wrapping "failed to set to address" (of_reply (services.set_to email sent))
      c ←
          wrapping "failed to create mail client"
            (of_reply (services.new_mail_client smtp.host smtp.port))
      wrapping "failed to send invite email"
          (services.dial_and_send (message_to email token msg) (authenticated smtp c))

    -- errors are only logged
    unfoldable pub send_if_configured : Option SmtpConfig → String → String → Exec S (Unit {0})
    unfolding send_invite_email
    send_if_configured none email token = pure tt
    send_if_configured (some smtp) email token = do
      attempt (send_invite_email smtp email token)
      pure tt

    unfoldable pub invite_with :
        Option SmtpConfig → String → String → String → String → Exec S Invitation
    unfolding invite_secret send_if_configured
    invite_with smtp email invited_by expires_at token = do
      wrapping "failed to create invite secret"
          (p.create secrets (invite_secret namespace token email invited_by expires_at))
      send_if_configured smtp email token
      pure (record {
        token = token;
        email = email;
        invited_by = invited_by;
        expires_at = expires_at;
      })

    unfoldable pub create_invite : Option SmtpConfig → T → String → String → ℤ → Exec S Invitation
    unfolding duration_of_hours invite_with
    create_invite smtp now email invited_by expiration_hours = do
      token_bytes ←
          wrapping "failed to generate invite token" (services.read_random invite_token_length)
      invite_with smtp email invited_by
          (services.format_rfc3339 (services.add now (duration_of_hours expiration_hours)))
          (services.encode_to_string token_bytes)

  module _ (now : T) where
    unfoldable pub redeem_found : Option Secret → Exec S String
    unfolding is_expired text_at
    redeem_found none = fail (sentinel err_invalid_token)
    redeem_found (some secret) =
        if is_expired services now secret
        then (do attempt (p.delete secrets secret none); fail (sentinel err_invite_expired))
        else do
          wrapping "failed to delete redeemed invite secret" (p.delete secrets secret none)
          pure (text_at "email" secret.entries)

    unfoldable pub redeem_invite : String → Exec S String
    unfolding find_token redeem_found
    redeem_invite token = do
      items ←
          wrapping "failed to list invite secrets" (p.list secrets (some namespace) invite_labels)
      redeem_found (find_token token items)
