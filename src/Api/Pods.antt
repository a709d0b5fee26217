-- ===== src/Api/Pods.antt =====
-- `execInPod` of internal/api/handlers_mods.go, and the restart that follows an upload or a restore.
use kterodactyl.Prelude.{
  String, ◌==◌, Bool, true, false, Option, none, some, List, text_at, if◌then◌else◌,
}
use kterodactyl.Labels.{annotation_backup_path}
use kterodactyl.Lifecycle.{creating}
use kterodactyl.Kube.Errors.{wrap, Reply, ok, err}
use kterodactyl.Kube.Objects.{GameServer, game_servers}
use kterodactyl.Kube.Exec.{Exec, pure, attempt, ◌>>=◌}
use kterodactyl.Kube.Platform.{Platform}
use kterodactyl.Backups.Storage.{ExecRequest, Storage}
use kterodactyl.Api.Servers.{Handler}

unfoldable pub exec_request : String → String → List String → Bool → ExecRequest
exec_request namespace pod command has_input = record {
  namespace = namespace;
  pod = pod;
  container = "gameserver";
  command = command;
  stdin = has_input;
  stdout = true;
  stderr = true;
}

abbrev pub has_reader : {R : Type 0} → Option R → Bool
has_reader none = false
has_reader (some r) = true

module _ {S C R : Type 0} (t : Storage S C R) where
  unfoldable pub run_request :
      ExecRequest → Option R → Reply (Unit {0}) → Exec S (Reply (Unit {0}) × String × String)
  run_request request input (err e) = pure (err (wrap "exec setup failed" e), "", "")
  run_request request input (ok u) =
      λ s. let (output, s') = t.stream request input s in (ok output, s')

  -- Its result has the two outputs beside the error.
  unfoldable pub exec_in_pod :
      String → String → List String → Option R → Exec S (Reply (Unit {0}) × String × String)
  unfolding exec_request run_request
  exec_in_pod namespace pod command input =
      let request = exec_request namespace pod command (has_reader input) in
      run_request request input (t.new_executor request)

-- the path of the annotation, or the default
unfoldable pub restore_path : GameServer → String
unfolding text_at
restore_path gs =
    let annotated = text_at annotation_backup_path gs.meta.annotations in
    if annotated == "" then "/data" else annotated

module _ {S : Type 0} (p : Platform S) where
  unfoldable pub restart_written : Handler p → Handler p → Reply GameServer → Handler p
  restart_written failed_answer done_answer (ok gs) = done_answer
  restart_written failed_answer done_answer (err e) = failed_answer

  unfoldable pub restart_found : Handler p → Handler p → Reply GameServer → Handler p
  unfolding restart_written
  restart_found failed_answer done_answer (err e) = failed_answer
  restart_found failed_answer done_answer (ok gs) = do
    r ← attempt (
        p.update_status game_servers
          (record gs { status = record (gs.status) { state = creating } }))
    restart_written failed_answer done_answer r

  -- Read the game server anew and write Creating into its status; an answer for a failure of either,
  -- and one for success.
  unfoldable pub restart_server : String → String → Handler p → Handler p → Handler p
  unfolding restart_found
  restart_server ns name failed_answer done_answer = do
    r ← attempt (p.get game_servers (record { namespace = ns; name = name }))
    restart_found failed_answer done_answer r
