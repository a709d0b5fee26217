-- ===== src/Api/Servers.antt =====
-- The handlers of internal/api/handlers_gameserver.go. The state that a client call returns is what the handler answers with,
-- since the client writes the object back.
use Prim.Native.String.{◌++◌}
use kterodactyl.Prelude.{
  String, ◌==◌, ◌||◌, Option, none, some, List, [], ◌∷◌, Dict, lookup, map, length, if◌then◌else◌,
}
use kterodactyl.Lifecycle.{GameServerState, creating, starting, ready, allocated, shutdown, error}
use kterodactyl.Kube.Errors.{of_err, Reply, ok, err, is_not_found, is_already_exists}
use kterodactyl.Kube.Objects.{GameServer, game_servers}
use kterodactyl.Kube.Exec.{Exec, attempt, ◌>>=◌}
use kterodactyl.Kube.Platform.{Platform}
use kterodactyl.Api.Responses.{
  Response, no_body, game_server_body, list_body, game_server_to_response, status_ok,
  status_created, status_no_content, status_bad_request, status_unauthorized, status_not_found,
  status_conflict, status_internal_server_error, respond_json, respond_pieces, respond_error,
}
use kterodactyl.Api.Requests.{
  CreateGameServerRequest, validate_create, validate_update, merge_maps, new_game_server,
}
use kterodactyl.Api.Manifests.{GameManifest, validate_parameters}

module _ {S : Type 0} (p : Platform S) where
  abbrev pub Handler : Type 0
  Handler = Exec S Response

  abbrev pub no_namespace : Handler
  no_namespace = respond_error status_unauthorized "no namespace in context"

  abbrev pub answer_server : GameServer → Handler
  answer_server gs = respond_json status_ok (game_server_body (game_server_to_response gs))

  unfoldable pub with_found : String → (GameServer → Handler) → Reply GameServer → Handler
  unfolding respond_error
  with_found name next (ok gs) = next gs
  with_found name next (err e) =
      if is_not_found e
      then respond_error status_not_found ("game server not found: " ++ name)
      else respond_error status_internal_server_error "failed to get game server"

  -- the start of each handler of one game server: the namespace of the context, then `Get`
  unfoldable pub with_server : String → String → (GameServer → Handler) → Handler
  unfolding with_found
  with_server ns name next = if ns == "" then no_namespace else do
    r ← attempt (p.get game_servers (record { namespace = ns; name = name }))
    with_found name next r

  -- the end of the handlers that write the object
  unfoldable pub answer_written : String → Reply GameServer → Handler
  unfolding respond_error game_server_to_response
  answer_written message (ok gs) = answer_server gs
  answer_written message (err e) = respond_error status_internal_server_error message

  unfoldable pub write_game_server_state : GameServerState → GameServer → Handler
  unfolding answer_written
  write_game_server_state state gs = do
    r ←
        attempt (
          p.update_status game_servers
            (record gs { status = record (gs.status) { state = state } }))
    answer_written "failed to update game server state" r

  -- the `switch` on the state in `handleStartGameServer`, with what follows it
  unfoldable pub start_from : GameServer → GameServerState → Handler
  unfolding write_game_server_state respond_error
  start_from gs creating = respond_error status_conflict "server is already running"
  start_from gs starting = respond_error status_conflict "server is already running"
  start_from gs ready = respond_error status_conflict "server is already running"
  start_from gs allocated = respond_error status_conflict "server is already running"
  start_from gs shutdown = write_game_server_state creating gs
  start_from gs error = write_game_server_state creating gs
  start_from gs _ = write_game_server_state creating gs

  unfoldable pub start_server : GameServer → Handler
  unfolding start_from
  start_server gs = start_from gs gs.status.state

  unfoldable pub stop_from : GameServer → GameServerState → Handler
  unfolding write_game_server_state respond_error
  stop_from gs shutdown = respond_error status_conflict "server is already stopped"
  stop_from gs error = respond_error status_conflict "server is in error state"
  stop_from gs _ = write_game_server_state shutdown gs

  unfoldable pub stop_server : GameServer → Handler
  unfolding stop_from
  stop_server gs = stop_from gs gs.status.state

  unfoldable pub handle_start_game_server : String → String → Handler
  unfolding with_server start_server
  handle_start_game_server ns name = with_server ns name start_server

  unfoldable pub handle_stop_game_server : String → String → Handler
  unfolding with_server stop_server
  handle_stop_game_server ns name = with_server ns name stop_server

  unfoldable pub handle_restart_game_server : String → String → Handler
  unfolding with_server write_game_server_state
  handle_restart_game_server ns name = with_server ns name (write_game_server_state creating)

  unfoldable pub listed : Reply (List GameServer) → Handler
  unfolding respond_error game_server_to_response
  listed (ok items) =
      respond_json status_ok (list_body (map game_server_to_response items) (length items))
  listed (err e) = respond_error status_internal_server_error "failed to list game servers"

  unfoldable pub handle_list_game_servers : String → Handler
  unfolding listed
  handle_list_game_servers ns =
      if ns == "" then no_namespace else do r ← attempt (p.list game_servers (some ns) []); listed r

  unfoldable pub handle_get_game_server : String → String → Handler
  unfolding with_server game_server_to_response
  handle_get_game_server ns name = with_server ns name answer_server

  unfoldable pub deleted : Reply (Unit {0}) → Handler
  unfolding respond_error
  deleted (ok u) = respond_json status_no_content no_body
  deleted (err e) = respond_error status_internal_server_error "failed to delete game server"

  unfoldable pub delete_server : GameServer → Handler
  unfolding deleted
  delete_server gs = do r ← attempt (p.delete game_servers gs none); deleted r

  unfoldable pub handle_delete_game_server : String → String → Handler
  unfolding with_server delete_server
  handle_delete_game_server ns name = with_server ns name delete_server

  -- an error becomes the answer 400 with its text
  unfoldable pub with_valid : {A : Type 0} → Reply A → (A → Handler) → Handler
  unfolding respond_pieces
  with_valid (ok a) next = next a
  with_valid (err e) next = respond_pieces status_bad_request (of_err e ∷ [])

  unfoldable pub created : Reply GameServer → Handler
  unfolding respond_error game_server_to_response
  created (ok gs) = respond_json status_created (game_server_body (game_server_to_response gs))
  created (err e) =
      if is_already_exists e
      then respond_error status_conflict "game server with this name already exists"
      else respond_error status_internal_server_error "failed to create game server"

  -- `handleCreateGameServer` from the look at the manifests on
  unfoldable pub create_from :
      String → String → CreateGameServerRequest → Option GameManifest → Handler
  unfolding respond_error merge_maps validate_parameters new_game_server created with_valid
  create_from ns username req none =
      respond_error status_bad_request ("unknown game type: " ++ req.game_type)
  create_from ns username req (some m) =
      let parameters = merge_maps m.parameters req.parameters in
      with_valid (validate_parameters m parameters) λ _. do
        r ← attempt (p.create game_servers (new_game_server ns username req m parameters))
        created r

  unfoldable pub create_of : Dict GameManifest → String → String → CreateGameServerRequest → Handler
  unfolding lookup create_from
  create_of manifests ns username req = create_from ns username req (lookup req.game_type manifests)

  -- `decoded` is the decoded body of the request, or the error of `decodeJSON`.
  unfoldable pub handle_create_game_server :
      Dict GameManifest → String → String → Reply CreateGameServerRequest → Handler
  unfolding create_of validate_create
  handle_create_game_server manifests ns username decoded =
      if ns == "" || username == ""
      then respond_error status_unauthorized "no namespace or username in context"
      else with_valid decoded
          λ req. with_valid (validate_create req) λ _. create_of manifests ns username req

  unfoldable pub validate_update_of :
      Dict GameManifest → GameServer → Dict String → Reply (Unit {0})
  unfolding lookup validate_parameters
  validate_update_of manifests gs parameters = elim (lookup gs.spec.game_type manifests) [
    | none ↦ ok tt
    | some m ↦ validate_parameters m parameters
  ]

  unfoldable pub update_server : Dict GameManifest → Dict String → GameServer → Handler
  unfolding merge_maps validate_update_of with_valid answer_written
  update_server manifests override gs =
      let parameters = merge_maps gs.spec.parameters override in
      with_valid (validate_update_of manifests gs parameters) λ _. do
        r ← attempt (
            p.update game_servers
              (record gs { spec = record (gs.spec) { parameters = parameters } }))
        answer_written "failed to update game server" r

  unfoldable pub handle_update_game_server :
      Dict GameManifest → String → String → Reply (Dict String) → Handler
  unfolding with_server update_server validate_update
  handle_update_game_server manifests ns name decoded =
      if ns == ""
      then no_namespace
      else with_valid decoded λ override.
        with_valid (validate_update override)
          λ _. with_server ns name (update_server manifests override)
