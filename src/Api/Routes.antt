-- ===== src/Api/Routes.antt =====
-- The routes of game servers in internal/api/routes.go: which handler serves which request.
use kterodactyl.Prelude.{String, Dict}
use kterodactyl.Kube.Errors.{Reply}
use kterodactyl.Kube.Platform.{Platform}
use kterodactyl.Api.Manifests.{GameManifest}
use kterodactyl.Api.Requests.{CreateGameServerRequest}
use kterodactyl.Api.Servers.{
  Handler, handle_list_game_servers, handle_get_game_server, handle_create_game_server,
  handle_update_game_server, handle_delete_game_server, handle_start_game_server,
  handle_stop_game_server, handle_restart_game_server,
}

-- a request under /gameservers, with the name in its path and its decoded body
pub data Call : Type 0 where
  to_list : Call
  to_get to_delete to_start to_stop to_restart : String → Call
  to_create : Reply CreateGameServerRequest → Call
  to_update : String → Reply (Dict String) → Call

module _ {S : Type 0} (p : Platform S) (manifests : Dict GameManifest) (ns username : String) where
  unfoldable pub serve : Call → Handler p
  unfolding handle_list_game_servers handle_get_game_server handle_create_game_server
      handle_update_game_server handle_delete_game_server handle_start_game_server
      handle_stop_game_server handle_restart_game_server
  serve to_list = handle_list_game_servers p ns
  serve (to_create decoded) = handle_create_game_server p manifests ns username decoded
  serve (to_get name) = handle_get_game_server p ns name
  serve (to_update name decoded) = handle_update_game_server p manifests ns name decoded
  serve (to_delete name) = handle_delete_game_server p ns name
  serve (to_start name) = handle_start_game_server p ns name
  serve (to_stop name) = handle_stop_game_server p ns name
  serve (to_restart name) = handle_restart_game_server p ns name
