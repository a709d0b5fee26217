-- ===== src/Examples/Data.antt =====
-- A cluster with one game server, which is starting, and its pod, which is ready.
use kterodactyl.Prelude.{true, false, none, some, [], ◌∷◌}
use kterodactyl.Labels.{label_owner}
use kterodactyl.Lifecycle.{starting, creating}
use kterodactyl.Kube.Meta.{Key, Meta, key_of, new_meta, Condition, is_true, is_false}
use kterodactyl.Kube.Objects.{GameServer, ConfigMap, Pod, always, pod_running}
use kterodactyl.Kube.Memory.{Memory, empty}
use kterodactyl.Controller.Conditions.{type_progressing, type_ready}
use kterodactyl.Controller.Config.{admin_config_map_name, default_operator_namespace}
use kterodactyl.Controller.Reconcile.{finalizer_name}

abbrev pub server_meta : Meta
server_meta = record {
  name = "arena";
  namespace = "user-ana";
  labels = (label_owner, "ana") ∷ [];
  annotations = [];
  finalizers = finalizer_name ∷ [];
  generation = 3;
  creation_timestamp = some 10;
  deleting = false;
  controller = none;
}

abbrev pub server_key : Key
server_key = key_of server_meta

abbrev pub progressing : Condition
progressing = record {
  type = type_progressing;
  status = is_true;
  reason = "PodCreated";
  message = [];
  observed_generation = 3;
  last_transition_time = 20;
}

abbrev pub not_ready : Condition
not_ready = record {
  type = type_ready;
  status = is_false;
  reason = "PodCreated";
  message = [];
  observed_generation = 3;
  last_transition_time = 10;
}

abbrev pub server : GameServer
server = record {
  meta = server_meta;
  spec = record {
    game_type = "xonotic";
    image = "xonotic:1";
    resources = record { requests = []; limits = [] };
    ports = record { name = "game"; container_port = 26000; protocol = "UDP" } ∷ [];
    parameters = [];
  };
  status = record {
    state = starting;
    address = "";
    ports = [];
    conditions = progressing ∷ not_ready ∷ [];
  };
}

abbrev pub pod : Pod
pod = record {
  meta = record server_meta { finalizers = [] };
  spec = record { containers = []; restart_policy = always; volumes = [] };
  status = record {
    phase = pod_running;
    container_statuses = true ∷ [];
    pod_ip = "10.0.0.7";
    reason = "";
  };
}

abbrev pub cluster : Memory
cluster = record empty { stored_game_servers = server ∷ []; stored_pods = pod ∷ [] }

-- the same server while it is created, and the cluster before its pod is there
abbrev pub new_server : GameServer
new_server = record server {
  status = record { state = creating; address = ""; ports = []; conditions = [] };
}

abbrev pub new_cluster : Memory
new_cluster = record empty { stored_game_servers = new_server ∷ [] }

-- a configuration that allows no game servers
abbrev pub closed : ConfigMap
closed = record {
  meta = new_meta admin_config_map_name default_operator_namespace [] [];
  entries = ("maxServersGlobal", "0") ∷ [];
}

abbrev pub closed_cluster : Memory
closed_cluster = record new_cluster { stored_config_maps = closed ∷ [] }
