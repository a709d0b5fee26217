-- ===== src/Auth/Users.antt =====
-- `UserStore` of internal/auth/store.go: users are secrets of the operator's namespace.
pub mod Stored
pub mod Emails
use Prim.Native.String.{◌++◌}
use kterodactyl.Prelude.{String, ◌==◌, none, some, List, [], ◌∷◌, Dict, text_at, map, if◌then◌else◌}
use kterodactyl.Labels.{label_managed_by_kterodactyl, managed_by_value}
use kterodactyl.Kube.Errors.{
  Reply, ok, err, wrap, sentinel, err_user_exists, err_user_not_found, is_not_found,
  is_already_exists,
}
use kterodactyl.Kube.Meta.{Key, new_meta}
use kterodactyl.Kube.Objects.{Secret, secrets}
use kterodactyl.Kube.Exec.{Exec, pure, fail, wrapping, attempt, ◌>>=◌, ◌>>◌}
use kterodactyl.Kube.Platform.{Platform}
use kterodactyl.Auth.Names.{validate_username}

pub record User : Type 0 where
  pub username : String
  pub email : String
  pub password_hash : String
  pub role : String
  pub created_at : String
  pub invited_by : String

abbrev pub label_resource_type : String
label_resource_type = "kterodactyl.io/resource-type"

abbrev label_user_name : String
label_user_name = "kterodactyl.io/user"

abbrev label_role : String
label_role = "kterodactyl.io/role"

abbrev resource_type_user : String
resource_type_user = "user"

abbrev pub user_key : String → String → Key
user_key namespace username = record { namespace = namespace; name = "user-" ++ username }

abbrev user_labels : Dict String
user_labels =
    (label_managed_by_kterodactyl, managed_by_value)
    ∷ (label_resource_type, resource_type_user)
    ∷ []

unfoldable pub user_secret : String → User → Secret
user_secret namespace user = record {
  meta =
      new_meta ("user-" ++ user.username) namespace
        ((label_managed_by_kterodactyl, managed_by_value)
          ∷ (label_resource_type, resource_type_user)
          ∷ (label_user_name, user.username)
          ∷ (label_role, user.role)
          ∷ [])
        [];
  entries =
      ("email", user.email)
      ∷ ("password-hash", user.password_hash)
      ∷ ("created-at", user.created_at)
      ∷ ("invited-by", user.invited_by)
      ∷ [];
}

unfoldable pub user_from_secret : Secret → User
unfolding text_at
user_from_secret secret = record {
  username = text_at label_user_name secret.meta.labels;
  email = text_at "email" secret.entries;
  password_hash = text_at "password-hash" secret.entries;
  role = text_at label_role secret.meta.labels;
  created_at = text_at "created-at" secret.entries;
  invited_by = text_at "invited-by" secret.entries;
}

-- the loop of `GetUserByEmail`
unfoldable pub find_email : String → List Secret → Reply User
unfolding text_at user_from_secret
find_email email [] = err (sentinel err_user_not_found)
find_email email (secret ∷ rest) =
    if text_at "email" secret.entries == email
    then ok (user_from_secret secret)
    else find_email email rest

module _ {S : Type 0} where
  unfoldable pub stored_user : Reply Secret → Exec S (Unit {0})
  stored_user (ok secret) = pure tt
  stored_user (err e) =
      if is_already_exists e
      then fail (sentinel err_user_exists)
      else fail (wrap "failed to create user secret" e)

  unfoldable pub returned_user : String → Reply Secret → Exec S Secret
  returned_user context (ok secret) = pure secret
  returned_user context (err e) =
      if is_not_found e then fail (sentinel err_user_not_found) else fail (wrap context e)

  unfoldable pub of_reply : {A : Type 0} → Reply A → Exec S A
  of_reply (ok a) = pure a
  of_reply (err e) = fail e

module _ {S : Type 0} (p : Platform S) (namespace : String) where
  unfoldable pub create_user : User → Exec S (Unit {0})
  unfolding validate_username user_secret stored_user of_reply
  create_user user = do
    of_reply (validate_username user.username)
    r ← attempt (p.create secrets (user_secret namespace user))
    stored_user r

  unfoldable pub get_user : String → Exec S User
  unfolding returned_user user_from_secret
  get_user username = do
    r ← attempt (p.get secrets (user_key namespace username))
    secret ← returned_user "failed to get user secret" r
    pure (user_from_secret secret)

  unfoldable pub get_user_by_email : String → Exec S User
  unfolding find_email of_reply
  get_user_by_email email = do
    items ← wrapping "failed to list user secrets" (p.list secrets (some namespace) user_labels)
    of_reply (find_email email items)

  unfoldable pub list_users : Exec S (List User)
  unfolding user_from_secret
  list_users = do
    items ← wrapping "failed to list user secrets" (p.list secrets (some namespace) user_labels)
    pure (map user_from_secret items)

  unfoldable pub delete_user : String → Exec S (Unit {0})
  unfolding returned_user
  delete_user username = do
    r ← attempt (p.get secrets (user_key namespace username))
    secret ← returned_user "failed to get user secret for deletion" r
    wrapping "failed to delete user secret" (p.delete secrets secret none)
