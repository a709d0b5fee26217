-- ===== src/Api/Admin.antt =====
-- The handlers of internal/api/handlers_admin.go: invitations and users, for administrators.
use kterodactyl.Prelude.{String, ◌==◌, Bool, true, false, Option, List, map, length, if◌then◌else◌}
use kterodactyl.Kube.Errors.{
  Err, failed, wrap, detail, noted, sentinel, err_user_not_found, Reply, ok, err,
}
use kterodactyl.Kube.Exec.{attempt, ◌>>=◌}
use kterodactyl.Kube.Platform.{Platform}
use kterodactyl.Controller.Config.{AdminConfig, load_admin_config}
use kterodactyl.Auth.Users.{User, list_users, delete_user}
use kterodactyl.Auth.Invites.{Services, SmtpConfig, Invitation, create_invite}
use kterodactyl.Api.Responses.{
  UserResponse, no_body, invite_body, user_list_body, status_ok, status_created, status_no_content,
  status_bad_request, status_not_found, status_internal_server_error, respond_json, respond_error,
}
use kterodactyl.Api.Servers.{Handler, with_valid}

-- `errors.Is` with `ErrUserNotFound`
abbrev pub is_user_not_found : Err → Bool
is_user_not_found (sentinel err_user_not_found) = true
is_user_not_found (wrap s e) = is_user_not_found e
is_user_not_found (detail e s) = is_user_not_found e
is_user_not_found (noted s e t) = is_user_not_found e
is_user_not_found _ = false

unfoldable pub user_to_response : User → UserResponse
user_to_response u = record {
  username = u.username;
  email = u.email;
  role = u.role;
  created_at = u.created_at;
  invited_by = u.invited_by;
}

-- The request has the one field.
unfoldable pub validate_invite : String → Reply (Unit {0})
validate_invite email = if email == "" then err (failed "email is required") else ok tt

module _ {S : Type 0} (p : Platform S) (namespace : String) where
  unfoldable pub users_listed : Reply (List User) → Handler p
  unfolding respond_error user_to_response
  users_listed (err e) = respond_error status_internal_server_error "failed to list users"
  users_listed (ok users) =
      respond_json status_ok (user_list_body (map user_to_response users) (length users))

  unfoldable pub handle_list_users : Handler p
  unfolding list_users users_listed
  handle_list_users = do r ← attempt (list_users p namespace); users_listed r

  unfoldable pub user_deleted : Reply (Unit {0}) → Handler p
  unfolding respond_error
  user_deleted (ok u) = respond_json status_no_content no_body
  user_deleted (err e) =
      if is_user_not_found e
      then respond_error status_not_found "user not found"
      else respond_error status_internal_server_error "failed to delete user"

  -- the user who asks, and the one to delete
  unfoldable pub handle_delete_user : String → String → Handler p
  unfolding respond_error delete_user user_deleted
  handle_delete_user admin_username username =
      if username == ""
      then respond_error status_bad_request "username is required"
      else if admin_username == username
      then respond_error status_bad_request "cannot delete yourself"
      else do r ← attempt (delete_user p namespace username); user_deleted r

module _ {S T M C : Type 0} (p : Platform S) (services : Services S T M C)
    (namespace panel_url : String) (smtp : Option SmtpConfig) (now : T) (username : String) where
  unfoldable pub invite_created : Reply Invitation → Handler p
  unfolding respond_error
  invite_created (err e) = respond_error status_internal_server_error "failed to create invite"
  invite_created (ok invite) =
      respond_json status_created (invite_body invite.token invite.email invite.expires_at)

  unfoldable pub invite_under : String → Reply AdminConfig → Handler p
  unfolding respond_error create_invite invite_created
  invite_under email (err e) =
      respond_error status_internal_server_error "failed to load configuration"
  invite_under email (ok cfg) = do
    r ← attempt (
        create_invite p services namespace panel_url smtp now email username
          cfg.invite_expiration_hours)
    invite_created r

  -- The request is the decoded email, or an error.
  unfoldable pub handle_create_invite : Reply String → Handler p
  unfolding with_valid validate_invite load_admin_config invite_under
  handle_create_invite decoded = with_valid p decoded λ email.
      with_valid p (validate_invite email)
        λ u. do r ← attempt (load_admin_config p namespace); invite_under email r
