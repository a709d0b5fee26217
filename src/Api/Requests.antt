-- ===== src/Api/Requests.antt =====
-- The requests of internal/api/request.go, and the object that `handleCreateGameServer` builds.
use kterodactyl.Prelude.{String, ◌==◌, [], ◌∷◌, Dict, insert, overlay, if◌then◌else◌}
use kterodactyl.Labels.{annotation_mod_path, annotation_backup_path, game_server_labels}
use kterodactyl.Lifecycle.{GameServerState}
use kterodactyl.Kube.Errors.{Reply, ok, err, failed}
use kterodactyl.Kube.Meta.{new_meta}
use kterodactyl.Kube.Objects.{GameServer}
use kterodactyl.Api.Manifests.{GameManifest}

pub record CreateGameServerRequest : Type 0 where
  pub name : String
  pub game_type : String
  pub parameters : Dict String

unfoldable pub validate_create : CreateGameServerRequest → Reply (Unit {0})
validate_create req =
    if req.name == ""
    then err (failed "name is required")
    else if req.game_type == ""
    then err (failed "gameType is required")
    else ok tt

-- `UpdateGameServerRequest` has the one field.
unfoldable pub validate_update : Dict String → Reply (Unit {0})
validate_update [] = err (failed "at least one field must be provided for update")
validate_update (p ∷ ps) = ok tt

-- `mergeMaps`
unfoldable pub merge_maps : Dict String → Dict String → Dict String
unfolding overlay
merge_maps base override = overlay (overlay [] base) override

abbrev with_annotation : String → String → Dict String → Dict String
with_annotation key value annotations =
    if value == "" then annotations else insert key value annotations

-- the object that `handleCreateGameServer` creates
unfoldable pub new_game_server :
    String → String → CreateGameServerRequest → GameManifest → Dict String → GameServer
unfolding game_server_labels insert
new_game_server ns username req m parameters = record {
  meta = new_meta req.name ns (game_server_labels username req.game_type) (
      with_annotation annotation_backup_path m.backup_path
        (with_annotation annotation_mod_path m.mod_path []));
  spec = record {
    game_type = req.game_type;
    image = m.image;
    resources = m.resources;
    ports = m.ports;
    parameters = parameters;
  };
  status = record { state = GameServerState.unset; address = ""; ports = []; conditions = [] };
}
