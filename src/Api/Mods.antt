-- ===== src/Api/Mods.antt =====
-- The handlers of internal/api/handlers_mods.go. The pipe between the writer of a tar archive and a
-- command in the pod is a parameter, and so is the form of a request.
use Prim.Native.String.{◌++◌}
use Prim.Native.Char.{code}
use kterodactyl.Prelude.{
  nat_eq, base, any_char, split, fields, ℕ, ℤ, pos, atoi, String, ◌==◌, Bool, true, false, ◌||◌,
  Option, none, some, List, [], ◌∷◌, length, text_at, trim_space, if◌then◌else◌,
}
use kterodactyl.Labels.{annotation_mod_path}
use kterodactyl.Kube.Errors.{str, of_err, Reply, ok, err}
use kterodactyl.Kube.Objects.{GameServer}
use kterodactyl.Kube.Exec.{◌>>=◌}
use kterodactyl.Kube.Platform.{Platform}
use kterodactyl.Backups.Storage.{ExecRequest, Storage}
use kterodactyl.Backups.Running.{is_running}
use kterodactyl.Api.Responses.{
  ModFileResponse, mod_body, mod_list_body, no_body, status_ok, status_no_content,
  status_bad_request, status_conflict, status_internal_server_error, respond_json, respond_pieces,
  respond_error,
}
use kterodactyl.Api.Servers.{Handler, no_namespace}
use kterodactyl.Api.Backups.{for_server}
use kterodactyl.Api.Pods.{exec_request, exec_in_pod, restart_server}

-- a file of a form: its name, its size and its content
pub record Upload (F : Type 0) : Type 0 where
  pub filename : String
  pub size : ℤ
  pub content : F

-- the header of a file in an archive, without the time of modification
pub record TarHeader : Type 0 where
  pub name : String
  pub size : ℤ
  pub mode : ℕ

-- the header that `handleUploadMod` writes: the checked name, and the mode 0644
unfoldable pub header_of : {F : Type 0} → Upload F → String → TarHeader
header_of file name = record { name = name; size = file.size; mode = 420 }

unfoldable pub is_any_slash : ℕ → Bool
is_any_slash c = nat_eq c 47 || nat_eq c 92

-- the last element of a path, if it may name a file
unfoldable pub sanitize : String → Option String
unfolding base is_any_slash any_char
sanitize path =
    let name = base path in
    if name == "." || name == ".." || any_char is_any_slash name then none else some name

abbrev is_newline : ℕ → Bool
is_newline c = nat_eq c 10

-- `strings.HasPrefix`
unfoldable pub has_prefix : String → String → Bool
has_prefix String.[] s = true
has_prefix (String.◌∷◌ c prefix) String.[] = false
has_prefix (String.◌∷◌ c prefix) (String.◌∷◌ d s) =
    if nat_eq (code c) (code d) then has_prefix prefix s else false

abbrev last_of : String → List String → String
last_of word [] = word
last_of word (next ∷ rest) = last_of next rest

-- a line of at least nine fields: the size is the fifth, and the name the last
unfoldable pub entry_of_fields : List String → Option ModFileResponse
entry_of_fields (mode ∷ links ∷ owner ∷ group ∷ size ∷ month ∷ day ∷ time ∷ word ∷ rest) =
    let name = last_of word rest in
    if name == "." || name == ".."
    then none
    else some (record { name = name; size = elim (atoi size) [ none ↦ pos 0 | some n ↦ n ] })
entry_of_fields words = none

unfoldable pub entry_of_line : String → Option ModFileResponse
unfolding has_prefix fields entry_of_fields
entry_of_line line = if has_prefix "total" line then none else entry_of_fields (fields line)

unfoldable pub entries_of : List String → List ModFileResponse
unfolding entry_of_line
entries_of [] = []
entries_of (line ∷ lines) =
    let rest = entries_of lines in
    elim (entry_of_line line) [ none ↦ rest | some entry ↦ entry ∷ rest ]

unfoldable pub parse_ls_output : String → List ModFileResponse
unfolding entries_of split trim_space
parse_ls_output output = entries_of (split is_newline (trim_space output))

unfoldable pub remove_command : String → String → List String
remove_command path name = "rm" ∷ "-f" ∷ (path ++ ("/" ++ name)) ∷ []

module _ {S : Type 0} (p : Platform S) where
  -- the checks on the game server that all three handlers make: it runs and has a path for mods
  unfoldable pub with_mod_path : String → (String → Handler p) → GameServer → Handler p
  unfolding is_running text_at respond_error
  with_mod_path wrong next gs =
      if is_running gs.status.state
      then (let path = text_at annotation_mod_path gs.meta.annotations in
          if path == ""
          then respond_error status_bad_request "game does not support mods"
          else next path)
      else respond_error status_conflict wrong

  unfoldable pub mods_listed : Reply (Unit {0}) × String × String → Handler p
  unfolding parse_ls_output
  mods_listed (err e, output, errors) = respond_json status_ok (mod_list_body [] 0)
  mods_listed (ok u, output, errors) =
      let mods = parse_ls_output output in respond_json status_ok (mod_list_body mods (length mods))

  unfoldable pub mod_deleted : Reply (Unit {0}) × String × String → Handler p
  unfolding respond_error trim_space
  mod_deleted (err e, output, errors) =
      respond_error status_internal_server_error ("failed to delete mod: " ++ trim_space errors)
  mod_deleted (ok u, output, errors) = respond_json status_no_content no_body

module _ {S F : Type 0} (p : Platform S)
    (send : ExecRequest
      → TarHeader
      → F
      → S
      → (Reply (Unit {0}) × Reply (Unit {0}) × String × String) × S)
    (ns server : String) where
  -- the errors of the archive and of the command
  unfoldable pub after_upload :
      Upload F → String → Reply (Unit {0}) × Reply (Unit {0}) × String × String → Handler p
  unfolding respond_error respond_pieces trim_space restart_server
  after_upload file name (archived, err e, output, errors) =
      respond_error status_internal_server_error ("failed to upload mod: " ++ trim_space errors)
  after_upload file name (err e, ok u, output, errors) =
      respond_pieces status_internal_server_error
        (str "failed to stream mod file: " ∷ of_err e ∷ [])
  after_upload file name (ok w, ok u, output, errors) =
      restart_server p ns server
        (respond_error status_internal_server_error "mod uploaded but failed to restart server")
        (respond_json status_ok (mod_body (record { name = name; size = file.size })))

  unfoldable pub send_file : Upload F → String → String → Handler p
  unfolding exec_request header_of after_upload
  send_file file path name = do
    output ← λ s.
        let (replies, s') =
          send (exec_request ns server ("tar" ∷ "-xf" ∷ "-" ∷ "-C" ∷ path ∷ []) true)
            (header_of file name) file.content s in
        (ok replies, s')
    after_upload file name output

  unfoldable pub upload_into : Upload F → String → Option String → Handler p
  unfolding respond_error send_file
  upload_into file path none = respond_error status_bad_request "invalid filename"
  upload_into file path (some name) = send_file file path name

  -- `form` is the form, or its error; it may have no file.
  unfoldable pub upload_form : Reply (Option (Upload F)) → String → Handler p
  unfolding respond_error upload_into sanitize
  upload_form (err e) path = respond_error status_bad_request "file too large or invalid form data"
  upload_form (ok none) path = respond_error status_bad_request "missing file field in form data"
  upload_form (ok (some file)) path = upload_into file path (sanitize file.filename)

  unfoldable pub handle_upload_mod : Reply (Option (Upload F)) → Handler p
  unfolding for_server with_mod_path upload_form
  handle_upload_mod form =
      if ns == ""
      then no_namespace p
      else for_server p ns server
          (with_mod_path p "server must be running to upload mods" (upload_form form))

module _ {S C R : Type 0} (p : Platform S) (t : Storage S C R) (ns server : String) where
  unfoldable pub handle_list_mods : Handler p
  unfolding for_server with_mod_path exec_in_pod mods_listed
  handle_list_mods =
      if ns == ""
      then no_namespace p
      else for_server p ns server (
          with_mod_path p "server must be running to list mods" λ path. do
            output ← exec_in_pod t ns server ("ls" ∷ "-la" ∷ path ∷ []) none
            mods_listed p output)

  unfoldable pub delete_named : Option String → Handler p
  unfolding respond_error for_server with_mod_path exec_in_pod mod_deleted remove_command
  delete_named none = respond_error status_bad_request "invalid filename"
  delete_named (some name) = for_server p ns server (
      with_mod_path p "server must be running to delete mods" λ path. do
        output ← exec_in_pod t ns server (remove_command path name) none
        mod_deleted p output)

  unfoldable pub handle_delete_mod : String → Handler p
  unfolding delete_named sanitize
  handle_delete_mod filename = if ns == "" then no_namespace p else delete_named (sanitize filename)
