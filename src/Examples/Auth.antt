-- ===== src/Examples/Auth.antt =====
-- A user who is created in an empty cluster.
use kterodactyl.Prelude.{◌≡◌, ◌↔◌, refl, none, ◌⊎◌, List, [], ◌∷◌}
use kterodactyl.Kube.Errors.{Reply, ok}
use kterodactyl.Kube.Objects.{Secret, secrets}
use kterodactyl.Kube.Exec.{◌>>=◌}
use kterodactyl.Kube.Memory.{memory, empty, create, get}
use kterodactyl.Kube.Memory.Satisfies.{memory_laws}
use kterodactyl.Auth.Names.{validate_username}
use kterodactyl.Auth.Names.Valid.{IsUserName, validate_username_iff}
use kterodactyl.Auth.Users.{User, user_key, create_user, get_user, user_secret}
use kterodactyl.Auth.Users.Emails.{Found, NotFound, find_email-cases}
use kterodactyl.Auth.Users.Stored.{create_user-get_user}

abbrev accepted : Reply (Unit {0})
accepted = ok tt

validate_username_iff_example : (validate_username "ana-7" ≡ accepted) ↔ IsUserName "ana-7"
validate_username_iff_example = validate_username_iff "ana-7"

abbrev ana : User
ana = record {
  username = "ana";
  email = "ana@example.org";
  password_hash = "$argon2id$v=19$m=65536,t=1,p=4$c2FsdA$aGFzaA";
  role = "user";
  created_at = "2026-01-01T00:00:00Z";
  invited_by = "";
}

ana_created : (create_user memory "kterodactyl-system" ana empty).0 ≡ ok tt
unfolding create_user ◌>>=◌ create
ana_created = refl

ana_found :
    (get_user memory "kterodactyl-system" "ana"
      (create_user memory "kterodactyl-system" ana empty).1).0
    ≡ ok ana
unfolding create_user get_user ◌>>=◌ create get
ana_found = refl

create_user-get_user_example :
    IsUserName "ana"
    × (memory_laws.at secrets empty (user_key "kterodactyl-system" "ana") ≡ none)
    × (ana ≡ ana)
create_user-get_user_example =
    create_user-get_user memory_laws "kterodactyl-system" ana empty ana_created ana_found

abbrev users : List Secret
unfolding user_secret
users = user_secret "kterodactyl-system" ana ∷ []

find_email-cases_example : Found "ana@example.org" users ⊎ NotFound "ana@example.org" users
find_email-cases_example = find_email-cases "ana@example.org" users
