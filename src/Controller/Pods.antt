-- ===== src/Controller/Pods.antt =====
-- The objects of one game server in internal/controller/gameserver_controller.go: `reconcilePod`,
-- `reconcileModPVC` and `isPodReady`.
use Prim.Native.String.{◌++◌}
use kterodactyl.Prelude.{
  ◌==◌, Bool, true, false, none, some, List, [], ◌∷◌, map, text_at, if◌then◌else◌,
}
use kterodactyl.Labels.{label_owner, annotation_mod_path, game_server_labels}
use kterodactyl.Kube.Errors.{str, Reply, ok, err, wrap}
use kterodactyl.Kube.Meta.{Meta, new_meta}
use kterodactyl.Kube.Objects.{
  GameServerPort, GameServer, policy_unset, never, VolumeMount, Volume, PodSpec, phase_unset, Pod,
  pods, read_write_once, Pvc, pvcs,
}
use kterodactyl.Kube.Exec.{Exec, wrapping, modify, ◌>>=◌}
use kterodactyl.Kube.Platform.{Platform}
use kterodactyl.Controller.Config.{AdminConfig}

-- true if every container is ready, and there is one
unfoldable pub is_pod_ready_from : List Bool → Bool
is_pod_ready_from [] = true
is_pod_ready_from (ready ∷ rest) = if ready then is_pod_ready_from rest else false

unfoldable pub is_pod_ready : Pod → Bool
unfolding is_pod_ready_from
is_pod_ready pod = elim pod.status.container_statuses [
  | [] ↦ false
  | ready ∷ rest ↦ is_pod_ready_from (ready ∷ rest)
]

abbrev pub container_port : GameServerPort → GameServerPort
container_port port = record {
  name = port.name;
  container_port = port.container_port;
  protocol = port.protocol;
}

-- the volumes and the mounts of the mod storage, if the game supports mods
unfoldable pub mod_volumes : GameServer → List Volume
unfolding text_at
mod_volumes gs =
    if text_at annotation_mod_path gs.meta.annotations == ""
    then []
    else (record { name = "mods"; claim_name = gs.meta.name ++ "-mods" }) ∷ []

unfoldable pub mod_mounts : GameServer → List VolumeMount
unfolding text_at
mod_mounts gs =
    let mod_path = text_at annotation_mod_path gs.meta.annotations in
    if mod_path == "" then [] else (record { name = "mods"; mount_path = mod_path }) ∷ []

-- the pod's specification, from the game server
unfoldable pub pod_spec : GameServer → PodSpec
unfolding mod_volumes mod_mounts
pod_spec gs = record {
  containers =
      (record {
        name = "gameserver";
        image = gs.spec.image;
        ports = map container_port gs.spec.ports;
        resources = gs.spec.resources;
        env = gs.spec.parameters;
        volume_mounts = mod_mounts gs;
      })
      ∷ [];
  restart_policy = never;
  volumes = mod_volumes gs;
}

-- `&corev1.Pod{ObjectMeta: {Name, Namespace}}`
unfoldable pub blank_pod : GameServer → Pod
blank_pod gs = record {
  meta = new_meta gs.meta.name gs.meta.namespace [] [];
  spec = record { containers = []; restart_policy = policy_unset; volumes = [] };
  status = record { phase = phase_unset; container_statuses = []; pod_ip = ""; reason = "" };
}

unfoldable pub blank_pvc : GameServer → Pvc
blank_pvc gs = record {
  meta = new_meta (gs.meta.name ++ "-mods") gs.meta.namespace [] [];
  access_modes = [];
  requests = [];
  storage_class_name = none;
}

module _ {S : Type 0} (p : Platform S) where
  -- the rest of the function that `reconcilePod` passes to `CreateOrUpdate`
  unfoldable pub fill_pod : GameServer → Pod → Reply Meta → Reply Pod
  unfolding pod_spec
  fill_pod gs pod (ok m) = ok (record pod { meta = m; spec = pod_spec gs })
  fill_pod gs pod (err e) = err (wrap "failed to set owner reference" e)

  -- the function that `reconcilePod` passes to `CreateOrUpdate`
  unfoldable pub mutate_pod : GameServer → Pod → Reply Pod
  unfolding fill_pod text_at game_server_labels
  mutate_pod gs pod =
      let owner = text_at label_owner gs.meta.labels in
      fill_pod gs pod (
        p.set_controller_reference gs
          (record (pod.meta) { labels = game_server_labels owner gs.spec.game_type }))

  unfoldable pub reconcile_pod : GameServer → Exec S (Unit {0})
  unfolding mutate_pod blank_pod
  reconcile_pod gs = do
    result ←
        wrapping "failed to create/update Pod"
          (p.create_or_update pods (blank_pod gs) (mutate_pod gs))
    modify (
        p.event gs.meta "Normal" "PodReconciled"
          (str "Pod " ∷ str gs.meta.name ∷ str " " ∷ str result ∷ []))

  unfoldable pub fill_pvc : AdminConfig → Pvc → Reply Meta → Reply Pvc
  fill_pvc cfg pvc (err e) = err (wrap "failed to set owner reference on mod PVC" e)
  fill_pvc cfg pvc (ok m) = ok (elim pvc.meta.creation_timestamp [
    | some t ↦ record pvc { meta = m }
    | none ↦ record {
      meta = m;
      access_modes = read_write_once ∷ [];
      requests = ("storage", cfg.mod_storage_size) ∷ [];
      storage_class_name = if cfg.mod_storage_class == "" then none else some cfg.mod_storage_class;
    }
  ])

  -- The specification of a claim is set on creation only.
  unfoldable pub mutate_pvc : GameServer → AdminConfig → Pvc → Reply Pvc
  unfolding fill_pvc
  mutate_pvc gs cfg pvc = fill_pvc cfg pvc (p.set_controller_reference gs pvc.meta)

  unfoldable pub reconcile_mod_pvc : GameServer → AdminConfig → Exec S (Unit {0})
  unfolding mutate_pvc blank_pvc
  reconcile_mod_pvc gs cfg = do
    result ←
        wrapping "failed to create/update mod PVC"
          (p.create_or_update pvcs (blank_pvc gs) (mutate_pvc gs cfg))
    modify (
        p.event gs.meta "Normal" "ModPVCReconciled"
          (str "Mod PVC " ∷ str (gs.meta.name ++ "-mods") ∷ str " " ∷ str result ∷ []))
