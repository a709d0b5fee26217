-- ===== src/Examples/Controller.antt =====
-- Reconciliations of the example cluster.
use kterodactyl.Prelude.{◌≡◌, refl, true, some, List, [], ◌∷◌, none}
use kterodactyl.Lifecycle.{starting, ready, is_valid_transition}
use kterodactyl.Kube.Errors.{ok, Piece, str}
use kterodactyl.Kube.Meta.{is_true, is_false, find_condition}
use kterodactyl.Kube.Exec.{◌>>=◌}
use kterodactyl.Kube.Objects.{GameServer, game_servers}
use kterodactyl.Kube.Memory.{memory, get, list, update_status, find, has_text}
use kterodactyl.Kube.Memory.Satisfies.{memory_laws}
use kterodactyl.Controller.Conditions.{
  type_ready, type_progressing, type_degraded, transition_conditions,
}
use kterodactyl.Controller.Moves.{Allowed}
use kterodactyl.Controller.Reconcile.{transition_state, reconcile, again, then_gauge}
use kterodactyl.Controller.Status.{
  IsMoved, HasConditions, status_in, transition_conditions_table, transition_state_stores,
}
use kterodactyl.Controller.Transitions.Reconciliation.{reconcile_follows_table}
use kterodactyl.Examples.Data.{server, server_key, cluster}

reconcile_follows_table_example : Allowed (some starting) (some ready)
unfolding reconcile memory_laws ◌>>=◌ get list update_status find has_text then_gauge
reconcile_follows_table_example =
    reconcile_follows_table memory_laws 50 "" server_key cluster server_key

abbrev why : List Piece
why = str "Pod is running and all containers are ready" ∷ []

transition_conditions_table_example :
    let cs' = transition_conditions memory 50 3 ready "PodReady" why server.status.conditions in
    (status_in type_ready cs' ≡ some is_true)
    × (status_in type_progressing cs' ≡ some is_false)
    × (status_in type_degraded cs' ≡ none)
unfolding find_condition
transition_conditions_table_example =
    transition_conditions_table memory_laws 50 3 ready "PodReady" why server.status.conditions

returned : (transition_state memory 50 server ready "PodReady" why cluster).0 ≡ ok again
unfolding transition_state ◌>>=◌ get update_status
returned = refl

transition_state_stores_example :
    (old after : GameServer) × (is_valid_transition starting ready ≡ true)
    × (memory_laws.at game_servers cluster server_key ≡ some old)
    × (memory_laws.at game_servers
          (transition_state memory 50 server ready "PodReady" why cluster).1
          server_key
        ≡ some after)
    × IsMoved ready old after
    × HasConditions ready old.status.conditions after.status.conditions
    × (again ≡ record { requeue = true; requeue_after = 0 })
transition_state_stores_example =
    transition_state_stores memory_laws 50 server ready "PodReady" why cluster returned
