-- ===== src/Examples/Invites.antt =====
-- Invitations in a cluster with two of them. Times are numbers of nanoseconds.
use kterodactyl.Prelude.{
  ℕ, ◌+◌, ltb, ℤ, pos, negsuc, String, ◌≡◌, ◌≢◌, ◌⊎◌, refl, false, Option, none, some, [], ◌∷◌,
  text_at, lookup, ◌==◌, if◌then◌else◌,
}
use kterodactyl.Kube.Errors.{ok}
use kterodactyl.Kube.Meta.{Key, key_of}
use kterodactyl.Kube.Objects.{Secret, secrets}
use kterodactyl.Kube.Exec.{◌>>=◌}
use kterodactyl.Kube.Memory.{Memory, empty, memory, find, list, delete, create, put}
use kterodactyl.Kube.Memory.Satisfies.{memory_laws}
use kterodactyl.Kube.Memory.Secrets.{delete_secret_at, delete_secret_ok}
use kterodactyl.Auth.Invites.{
  Services, invite_secret, is_expired, find_token, duration_of_hours, redeem_invite, create_invite,
  invite_with, Invitation, SmtpConfig,
}
use kterodactyl.Auth.Users.{user_key}
use kterodactyl.Api.Admin.{handle_delete_user}
use kterodactyl.Api.Users.{handle_delete_user_takes}
use kterodactyl.Auth.Invites.Created.{ServicesLaws, create_invite-redeem_invite}
use kterodactyl.Auth.Invites.Redeeming.{SecretLaws, redeem_invite_takes}

abbrev later : ℕ → ℤ → ℕ
later t (pos n) = t + n
later t (negsuc n) = t

abbrev hour : String → Option ℕ
hour text = if text == "hour 1" then some 3600000000000 else none

abbrev services : Services Memory ℕ (Unit {0}) (Unit {0})
services = record {
  read_random = λ n m. (ok [], m);
  encode_to_string = λ bytes. "c0ffee0123456789";
  add = later;
  is_after = λ a b. ltb b a;
  format_rfc3339 = λ t. "hour 1";
  parse_rfc3339 = hour;
  new_msg = tt;
  set_from = λ a m. ok m;
  set_to = λ a m. ok m;
  set_subject = λ a m. m;
  set_html = λ a m. m;
  new_mail_client = λ host port. ok tt;
  with_auth = λ user password c. c;
  dial_and_send = λ msg c m. (ok tt, m);
}

abbrev invite : Secret
unfolding invite_secret
invite = invite_secret "kterodactyl-system" "c0ffee0123456789" "eve@example.org" "ana" "hour 1"

abbrev invited : Memory
unfolding invite
invited = record empty { stored_secrets = invite ∷ [] }

unfoldable secret_laws : SecretLaws memory_laws
unfolding memory_laws
secret_laws = record { delete_secret_at = delete_secret_at; delete_secret_ok = delete_secret_ok }

abbrev bob : String
bob = "bob"

abbrev another_key : Key
another_key = record { namespace = "kterodactyl-system"; name = "user-ana" }

redeem_invite_takes_example :
    (taken : Secret) × (memory_laws.at secrets invited (key_of taken.meta) ≡ some taken)
    × (taken.meta.namespace ≡ "kterodactyl-system")
    × (lookup "kterodactyl.io/managed-by" taken.meta.labels ≡ some "kterodactyl")
    × (lookup "kterodactyl.io/resource-type" taken.meta.labels ≡ some "invite")
    × (text_at "token" taken.entries ≡ "c0ffee0123456789")
    × (text_at "email" taken.entries ≡ "eve@example.org")
    × (is_expired services 50 taken ≡ false)
    × (memory_laws.at secrets
          (redeem_invite memory services "kterodactyl-system" 50 "c0ffee0123456789" invited).1
          (key_of taken.meta)
        ≡ none)
    × ((memory_laws.at secrets
            (redeem_invite memory services "kterodactyl-system" 50 "c0ffee0123456789" invited).1
            another_key
          ≡ memory_laws.at secrets invited another_key)
        ⊎ (another_key ≡ key_of taken.meta))
unfolding redeem_invite ◌>>=◌ find_token list delete find invited invite
redeem_invite_takes_example =
    redeem_invite_takes memory_laws secret_laws services "kterodactyl-system" 50 "c0ffee0123456789"
      invited another_key {email = "eve@example.org"} refl

unfoldable services_laws : ServicesLaws memory_laws services
unfolding memory_laws
services_laws = record { read_random_at = λ n m q. refl; dial_and_send_at = λ msg c m q. refl }

abbrev smtp : SmtpConfig
smtp = record {
  host = "mail.example.org";
  port = pos 587;
  from = "games@example.org";
  username = "games";
  password = "secret";
}

abbrev eve : String
eve = "eve@example.org"

abbrev mailed : Invitation
mailed = record {
  token = "c0ffee0123456789";
  email = "eve@example.org";
  invited_by = "ana";
  expires_at = "hour 1";
}

nothing_stored :
    (r : Key) (o : Secret)
    → memory_laws.at secrets empty r ≡ some o
    → text_at "token" o.entries ≢ mailed.token
unfolding memory_laws find
nothing_stored r o e same = cc

create_invite-redeem_invite_example :
    (eve ≡ "eve@example.org")
    × (memory_laws.at secrets
          (redeem_invite memory services "kterodactyl-system" 50 "c0ffee0123456789"
            (create_invite memory services "kterodactyl-system" "https://panel"
              (some smtp)
              0
              "eve@example.org"
              "ana"
              (pos 1)
              empty).1).1
          another_key
        ≡ memory_laws.at secrets empty another_key)
unfolding create_invite invite_with redeem_invite ◌>>=◌ find_token list delete find invite create
    put
create_invite-redeem_invite_example =
    create_invite-redeem_invite memory_laws services_laws "kterodactyl-system" "https://panel"
      (some smtp) 0 "eve@example.org" "ana" (pos 1) empty secret_laws 50 another_key
      {invitation = mailed} {found = eve} refl nothing_stored refl

handle_delete_user_takes_example :
    (memory_laws.at secrets
        (handle_delete_user memory "kterodactyl-system" "bob" "ana" invited).1
        another_key
      ≡ memory_laws.at secrets invited another_key)
    ⊎ ((another_key ≡ user_key "kterodactyl-system" "ana")
        × ((bob == "ana") ≡ false)
        × (memory_laws.at secrets
              (handle_delete_user memory "kterodactyl-system" "bob" "ana" invited).1
              another_key
            ≡ none))
handle_delete_user_takes_example =
    handle_delete_user_takes memory_laws secret_laws "kterodactyl-system" "ana" "bob" invited
      another_key

-- A number of hours beyond the range of a `Duration` wraps around to a time in the past.
hours_wrap : duration_of_hours (pos 2562048) ≡ negsuc 9223371273709551615
unfolding duration_of_hours
hours_wrap = refl
