-- ===== src/Api/Isolation/Restores.antt =====
-- A restore reaches the objects of its own namespace only.
use kterodactyl.Prelude.{String, ◌==◌, ◌≢◌, some}
use kterodactyl.Lifecycle.{completed, same_backup_state}
use kterodactyl.Kube.Errors.{Reply, ok, err}
use kterodactyl.Kube.Meta.{Key}
use kterodactyl.Kube.Objects.{GameServer, Secret, secrets, Backup, Kind}
use kterodactyl.Kube.Exec.Leaves.{Leaves-pure, Leaves-fail, Leaves-attempt, Leaves-if, Leaves-bind}
use kterodactyl.Kube.Platform.{Platform, Laws}
use kterodactyl.Kube.Platform.Frame.{Leaves-get}
use kterodactyl.Controller.Config.{AdminConfig}
use kterodactyl.Backups.Storage.{Storage, StorageLaws}
use kterodactyl.Backups.Running.{is_running}
use kterodactyl.Api.Restores.{
  client_made, client_from, create_s3_client, after_restore, unpack, downloaded,
  restore_with_client, restore_with, restore_backup, handle_restore_backup,
}
use kterodactyl.Api.Isolation.Backups.{
  Spares, json, refused, pieces, Spares-for_server, Spares-for_backup,
}
use kterodactyl.Api.Isolation.Pods.{Spares-exec_in_pod, Spares-restart, Spares-load_admin_config}

module _ {S C R : Type 0} {p : Platform S} (l : Laws p) {t : Storage S C R} (sl : StorageLaws l t)
    (operator_namespace ns : String) (j : Kind) (q : Key) (away : q.namespace ≢ ns) where
  module _ (server name : String) (gs : GameServer) (backup : Backup) where
    Spares-after_restore :
        (output : Reply (Unit {0}) × String × String)
        → Spares l ns j q away
            (after_restore p t operator_namespace ns server name gs backup output)
    unfolding after_restore
    Spares-after_restore (err e, output, errors) = refused l ns j q away _ _
    Spares-after_restore (ok u, output, errors) =
        Spares-restart l ns j q away server _ _ (json l ns j q away _ _) (json l ns j q away _ _)

    Spares-unpack :
        (r : Reply R)
        → Spares l ns j q away (unpack p t operator_namespace ns server name gs backup r)
    unfolding unpack
    Spares-unpack (err e) = refused l ns j q away _ _
    Spares-unpack (ok reader) =
        Leaves-bind _ _ (Spares-exec_in_pod l sl ns j q away server _ (some reader))
          Spares-after_restore

    Spares-downloaded :
        (r : Reply R)
        → Spares l ns j q away (downloaded p t operator_namespace ns server name gs backup r)
    unfolding downloaded
    Spares-downloaded (err e) = refused l ns j q away _ _
    Spares-downloaded (ok object) = Spares-unpack (t.gunzip object)

    Spares-restore_with_client :
        (r : Reply C)
        → Spares l ns j q away
            (restore_with_client p t operator_namespace ns server name gs backup r)
    unfolding restore_with_client
    Spares-restore_with_client (err e) = pieces l ns j q away _ _
    Spares-restore_with_client (ok client) =
        Leaves-bind _ _
          (Leaves-attempt _ (record {
            same_view =
                λ s. sl.get_object_at client backup.status.s3_bucket backup.status.s3_key s j q;
          }))
          Spares-downloaded

    Spares-client_made : (r : Reply C) → Spares l ns j q away (client_made p t operator_namespace r)
    unfolding client_made
    Spares-client_made (ok client) = Leaves-pure _
    Spares-client_made (err e) = Leaves-fail _

    Spares-client_from :
        (cfg : AdminConfig) (r : Reply Secret)
        → Spares l ns j q away (client_from p t operator_namespace cfg r)
    unfolding client_from
    Spares-client_from cfg (err e) = Leaves-fail _
    Spares-client_from cfg (ok secret) = Leaves-if _ _ _ (Leaves-fail _) (Spares-client_made _)

    Spares-restore_with :
        (r : Reply AdminConfig)
        → Spares l ns j q away (restore_with p t operator_namespace ns server name gs backup r)
    unfolding restore_with create_s3_client
    Spares-restore_with (err e) = refused l ns j q away _ _
    Spares-restore_with (ok cfg) =
        Leaves-if (cfg.backup_s3_endpoint == "") _ _ (refused l ns j q away _ _) (
          Leaves-bind _ _
            (Leaves-attempt _ (
              Leaves-bind _ _ (Leaves-attempt _ (Leaves-get l j q secrets _))
                (Spares-client_from cfg)))
            Spares-restore_with_client)

    Spares-restore_backup :
        Spares l ns j q away (restore_backup p t operator_namespace ns server name gs backup)
    unfolding restore_backup
    Spares-restore_backup =
        Leaves-if (same_backup_state backup.status.state completed) _ _
          (Leaves-if (is_running gs.status.state) _ _
            (Leaves-bind _ _ (Leaves-attempt _ (Spares-load_admin_config l ns j q away _))
              Spares-restore_with)
            (refused l ns j q away _ _))
          (refused l ns j q away _ _)

  pub Spares-handle_restore_backup :
      (server name : String)
      → Spares l ns j q away (handle_restore_backup p t operator_namespace ns server name)
  unfolding handle_restore_backup
  Spares-handle_restore_backup server name = Leaves-if (ns == "") _ _ (refused l ns j q away _ _) (
      Spares-for_server l ns j q away server _ λ gs e.
        Spares-for_backup l ns j q away server name _
          λ backup e'. Spares-restore_backup server name gs backup)
