-- ===== src/Api/Isolation/Pods.antt =====
-- The restart of a game server, the load of the configuration and a command in a pod change no object
-- of another namespace.
use kterodactyl.Prelude.{text_at, String, ◌==◌, ◌≡◌, ◌≢◌, inr, ap, Option, List}
use kterodactyl.Labels.{annotation_mod_path}
use kterodactyl.Kube.Errors.{Reply, ok, err, ok_inj, is_not_found}
use kterodactyl.Kube.Meta.{Key}
use kterodactyl.Kube.Objects.{GameServer, game_servers, ConfigMap, config_maps, Kind}
use kterodactyl.Kube.Exec.{attempt}
use kterodactyl.Kube.Exec.Leaves.{
  Leaves-pure, Leaves-fail, Leaves-attempt, Leaves-if, Leaves-bind, Leaves-bind_of,
}
use kterodactyl.Kube.Platform.{Platform, Laws}
use kterodactyl.Kube.Platform.Frame.{Leaves-get, Leaves-update_status_of}
use kterodactyl.Controller.Config.{config_of, load_admin_config}
use kterodactyl.Backups.Storage.{ExecRequest, Storage, StorageLaws}
use kterodactyl.Backups.Running.{is_running}
use kterodactyl.Api.Pods.{run_request, exec_in_pod, restart_written, restart_found, restart_server}
use kterodactyl.Api.Mods.{with_mod_path, mods_listed, mod_deleted}
use kterodactyl.Api.Servers.{Handler}
use kterodactyl.Api.Isolation.Backups.{Spares, json, refused, other_key}

module _ {S C R : Type 0} {p : Platform S} (l : Laws p) {t : Storage S C R} (sl : StorageLaws l t)
    (ns : String) (j : Kind) (q : Key) (away : q.namespace ≢ ns) where
  Spares-run_request :
      (request : ExecRequest) (input : Option R) (r : Reply (Unit {0}))
      → Spares l ns j q away (run_request t request input r)
  unfolding run_request
  Spares-run_request request input (ok u) = record {
    same_view = λ s. sl.stream_at request input s j q;
  }
  Spares-run_request request input (err e) = Leaves-pure _

  pub Spares-exec_in_pod :
      (pod : String) (command : List String) (input : Option R)
      → Spares l ns j q away (exec_in_pod t ns pod command input)
  unfolding exec_in_pod
  Spares-exec_in_pod pod command input = Spares-run_request _ _ _

module _ {S : Type 0} {p : Platform S} (l : Laws p) (ns : String) (j : Kind) (q : Key)
    (away : q.namespace ≢ ns) where
  pub Spares-restart :
      (server : String) (failed_answer done_answer : Handler p)
      → Spares l ns j q away failed_answer
      → Spares l ns j q away done_answer
      → Spares l ns j q away (restart_server p ns server failed_answer done_answer)
  unfolding restart_server attempt
  Spares-restart server failed_answer done_answer h k =
      Leaves-bind_of _ _ (Leaves-attempt _ (Leaves-get l j q game_servers _))
        λ s r e. found s r (ok_inj e)
    where
      written :
          (r : Reply GameServer)
          → Spares l ns j q away (restart_written p failed_answer done_answer r)
      written (ok gs) = k
      written (err e) = h

      found :
          (s : S) (r : Reply GameServer)
          → (p.get game_servers (record { namespace = ns; name = server }) s).0 ≡ r
          → Spares l ns j q away (restart_found p failed_answer done_answer r)
      found s (err x) e = h
      found s (ok gs) e =
          Leaves-bind _ _
            (Leaves-attempt _ (
              Leaves-update_status_of l j q _ (
                inr (
                  other_key l ns j q away (
                    ap (λ k. k.namespace)
                      (l.get_ok game_servers (record { namespace = ns; name = server }) s e).1)))))
            written

  Spares-config_of : (r : Reply ConfigMap) → Spares l ns j q away (config_of p r)
  unfolding config_of
  Spares-config_of (ok cm) = Leaves-pure _
  Spares-config_of (err e) = Leaves-if (is_not_found e) _ _ (Leaves-pure _) (Leaves-fail _)

  pub Spares-load_admin_config :
      (namespace : String) → Spares l ns j q away (load_admin_config p namespace)
  unfolding load_admin_config
  Spares-load_admin_config namespace =
      Leaves-bind _ _ (Leaves-attempt _ (Leaves-get l j q config_maps _)) Spares-config_of

  pub Spares-mod_path :
      (wrong : String) (next : String → Handler p) (gs : GameServer)
      → ((path : String) → Spares l ns j q away (next path))
      → Spares l ns j q away (with_mod_path p wrong next gs)
  unfolding with_mod_path
  Spares-mod_path wrong next gs h =
      Leaves-if (is_running gs.status.state) _ _
        (Leaves-if (text_at annotation_mod_path gs.meta.annotations == "") _ _
          (refused l ns j q away _ _) (h _))
        (refused l ns j q away _ _)

  pub Spares-mods_listed :
      (output : Reply (Unit {0}) × String × String) → Spares l ns j q away (mods_listed p output)
  unfolding mods_listed
  Spares-mods_listed (ok u, output, errors) = json l ns j q away _ _
  Spares-mods_listed (err e, output, errors) = json l ns j q away _ _

  pub Spares-mod_deleted :
      (output : Reply (Unit {0}) × String × String) → Spares l ns j q away (mod_deleted p output)
  unfolding mod_deleted
  Spares-mod_deleted (ok u, output, errors) = json l ns j q away _ _
  Spares-mod_deleted (err e, output, errors) = refused l ns j q away _ _
