-- ===== src/Examples/Creation.antt =====
-- Creations in the example cluster, below a limit and above it, the counts and the configuration.
use kterodactyl.Prelude.{◌≡◌, ◌⊎◌, refl, inl, false, [], ◌∷◌, atoi}
use kterodactyl.Lifecycle.{starting, same_state}
use kterodactyl.Kube.Errors.{Err, ok, err, wrap, is_not_found}
use kterodactyl.Kube.Meta.{Key}
use kterodactyl.Kube.Objects.{pods, config_maps}
use kterodactyl.Kube.Exec.{◌>>=◌}
use kterodactyl.Kube.Memory.{memory, get, list}
use kterodactyl.Kube.Memory.Satisfies.{memory_laws}
use kterodactyl.Controller.Config.{
  AdminConfig, admin_config_map_name, default_operator_namespace, default_admin_config,
  apply_entries, load_admin_config,
}
use kterodactyl.Controller.Namespaces.{operator_ns}
use kterodactyl.Controller.Reconcile.{reconcile_creating, count_servers}
use kterodactyl.Controller.Counts.{count_at, number_of, count_at-count_servers}
use kterodactyl.Controller.Creation.{EndsInError, over_limit_refused}
use kterodactyl.Controller.Defaults.{IsComplete, load_admin_config-IsComplete}
use kterodactyl.Examples.Data.{server, server_key, new_server, closed, closed_cluster}

abbrev closed_config : AdminConfig
unfolding apply_entries default_admin_config
closed_config = apply_entries memory closed.entries (default_admin_config memory)

closed_loads : (load_admin_config memory (operator_ns "") closed_cluster).0 ≡ ok closed_config
unfolding load_admin_config operator_ns ◌>>=◌ get
closed_loads = refl

over_limit_refused_example :
    (memory_laws.at pods (reconcile_creating memory 50 "" new_server closed_cluster).1 server_key
      ≡ memory_laws.at pods closed_cluster server_key)
    × EndsInError memory_laws 50 new_server
        (reconcile_creating memory 50 "" new_server closed_cluster)
unfolding load_admin_config ◌>>=◌ get list atoi operator_ns
over_limit_refused_example =
    over_limit_refused memory_laws 50 new_server "" closed_cluster closed_loads refl refl (inl refl)
      pods server_key (λ e. cc)

abbrev config : AdminConfig
unfolding default_admin_config
config = default_admin_config memory

count_at-count_servers_example :
    count_at starting "xonotic" (count_servers [] (server ∷ new_server ∷ server ∷ [])) ≡ 2
unfolding number_of same_state
count_at-count_servers_example =
    count_at-count_servers starting "xonotic" (server ∷ new_server ∷ server ∷ [])

load_admin_config-IsComplete_example :
    let key : Key = record {
      namespace = default_operator_namespace;
      name = admin_config_map_name;
    } in
    ((cfg : AdminConfig) × ((load_admin_config memory default_operator_namespace closed_cluster).0
        ≡ ok cfg)
      × IsComplete cfg)
    ⊎ ((e : Err) × ((memory.get config_maps key closed_cluster).0 ≡ err e)
        × (is_not_found e ≡ false)
        × ((load_admin_config memory default_operator_namespace closed_cluster).0
            ≡ err (wrap "failed to get admin config ConfigMap" e)))
load_admin_config-IsComplete_example =
    load_admin_config-IsComplete memory default_operator_namespace closed_cluster
