-- ===== src/Examples/Api.antt =====
-- Requests against the example cluster.
use kterodactyl.Prelude.{String, ◌≡◌, refl, some, [], ◌∷◌, Dict, lookup, arith}
use kterodactyl.Lifecycle.{shutdown}
use kterodactyl.Kube.Errors.{ok, str}
use kterodactyl.Kube.Meta.{Key}
use kterodactyl.Kube.Objects.{pods}
use kterodactyl.Kube.Exec.{◌>>=◌}
use kterodactyl.Kube.Memory.{memory, get, update_status, find}
use kterodactyl.Kube.Memory.Satisfies.{memory_laws}
use kterodactyl.Api.Responses.{
  Response, status_ok, game_server_body, game_server_to_response, status_not_found, error_response,
  respond_error,
}
use kterodactyl.Api.Requests.{merge_maps}
use kterodactyl.Api.Parameters.{either, no_entry, entry, lookup-merge_maps}
use kterodactyl.Api.Outcomes.{to_stop, perform, Performed, perform_achieves}
use kterodactyl.Api.Refusals.{perform_refused}
use kterodactyl.Examples.Data.{server_key, new_server, new_cluster, cluster}

abbrev defaults : Dict String
defaults = ("MOTD", "hello") ∷ ("SLOTS", "8") ∷ []

abbrev chosen : Dict String
chosen = ("SLOTS", "16") ∷ []

lookup-merge_maps_example : lookup "SLOTS" (merge_maps defaults chosen) ≡ some "16"
unfolding lookup either
lookup-merge_maps_example =
    lookup-merge_maps "SLOTS" defaults chosen (entry refl (entry refl no_entry))
      (entry refl no_entry)

abbrev other_key : Key
other_key = record { namespace = "user-ben"; name = "arena" }

abbrev anas : String
anas = "user-ana"

abbrev stopped : Response
unfolding game_server_to_response
stopped = record {
  status = status_ok;
  body = game_server_body (
      game_server_to_response
        (record new_server { status = record (new_server.status) { state = shutdown } }));
}

stop_answers : (perform memory to_stop "user-ana" "arena" new_cluster).0 ≡ ok stopped
unfolding perform ◌>>=◌ get update_status
stop_answers = refl

perform_achieves_example :
    Performed memory_laws to_stop "user-ana" "arena" new_cluster
      (perform memory to_stop "user-ana" "arena" new_cluster).1
unfolding stopped
perform_achieves_example =
    perform_achieves memory_laws to_stop "user-ana" "arena" new_cluster stop_answers refl

abbrev missing : Response
unfolding respond_error
missing = record {
  status = status_not_found;
  body = error_response (str "game server not found: pond" ∷ []);
}

missing_answers : (perform memory to_stop "user-ana" "pond" cluster).0 ≡ ok missing
unfolding perform ◌>>=◌ get find
missing_answers = refl

perform_refused_example :
    memory_laws.at pods (perform memory to_stop "user-ana" "pond" cluster).1 server_key
    ≡ memory_laws.at pods cluster server_key
unfolding missing
perform_refused_example =
    perform_refused memory_laws pods server_key cluster to_stop "user-ana" "pond" missing_answers
      (λ e. omega (arith, e)) (λ e. omega (arith, e))
