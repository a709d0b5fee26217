-- ===== src/Api/Responses.antt =====
-- internal/api/response.go and the bodies of internal/api/handlers_gameserver.go, handlers_backups.go
-- and handlers_mods.go. The JSON text of a body is left out, and a time is the time itself.
use kterodactyl.Prelude.{ℕ, ℤ, String, Option, List, [], ◌∷◌, Dict, map}
use kterodactyl.Lifecycle.{GameServerState, BackupState}
use kterodactyl.Kube.Errors.{Piece, str}
use kterodactyl.Kube.Objects.{GameServer, GameServerStatusPort, Backup}
use kterodactyl.Kube.Exec.{Exec, pure}

pub record PortResponse : Type 0 where
  pub name : String
  pub port : ℕ
  pub protocol : String

pub record GameServerResponse : Type 0 where
  pub name : String
  pub game_type : String
  pub state : GameServerState
  pub address : String
  pub ports : List PortResponse
  pub parameters : Dict String
  pub created_at : Option ℕ

-- of internal/api/handlers_backups.go
pub record BackupResponse : Type 0 where
  pub name : String
  pub game_server_name : String
  pub state : BackupState
  pub s3_key : String
  pub s3_bucket : String
  pub size : ℤ
  pub started_at : Option ℕ
  pub completed_at : Option ℕ
  pub message : List Piece
  pub created_at : Option ℕ

-- of internal/api/handlers_mods.go
pub record ModFileResponse : Type 0 where
  pub name : String
  pub size : ℤ

-- of internal/api/handlers_admin.go: a user without the hash of the password
pub record UserResponse : Type 0 where
  pub username : String
  pub email : String
  pub role : String
  pub created_at : String
  pub invited_by : String

pub data Body : Type 0 where
  no_body : Body
  error_response : List Piece → Body
  game_server_body : GameServerResponse → Body
  list_body : List GameServerResponse → ℕ → Body
  backup_body : BackupResponse → Body
  backup_list_body : List BackupResponse → ℕ → Body
  message_body : List Piece → Body
  -- the game server, its schedule and the number of backups to keep
  schedule_body : String → String → ℤ → Body
  mod_body : ModFileResponse → Body
  mod_list_body : List ModFileResponse → ℕ → Body
  -- the token, the email and the time of expiry
  invite_body : String → String → String → Body
  user_list_body : List UserResponse → ℕ → Body

pub record Response : Type 0 where
  pub status : ℕ
  pub body : Body

abbrev pub port_response : GameServerStatusPort → PortResponse
port_response port = record { name = port.name; port = port.port; protocol = port.protocol }

unfoldable pub game_server_to_response : GameServer → GameServerResponse
game_server_to_response gs = record {
  name = gs.meta.name;
  game_type = gs.spec.game_type;
  state = gs.status.state;
  address = gs.status.address;
  ports = map port_response gs.status.ports;
  parameters = gs.spec.parameters;
  created_at = gs.meta.creation_timestamp;
}

unfoldable pub backup_to_response : Backup → BackupResponse
backup_to_response backup = record {
  name = backup.meta.name;
  game_server_name = backup.spec.game_server_name;
  state = backup.status.state;
  s3_key = backup.status.s3_key;
  s3_bucket = backup.status.s3_bucket;
  size = backup.status.size;
  started_at = backup.status.started_at;
  completed_at = backup.status.completed_at;
  message = backup.status.message;
  created_at = backup.meta.creation_timestamp;
}

-- the status codes of net/http
abbrev pub status_ok : ℕ
status_ok = 200

abbrev pub status_created : ℕ
status_created = 201

abbrev pub status_no_content : ℕ
status_no_content = 204

abbrev pub status_bad_request : ℕ
status_bad_request = 400

abbrev pub status_unauthorized : ℕ
status_unauthorized = 401

abbrev pub status_not_found : ℕ
status_not_found = 404

abbrev pub status_forbidden : ℕ
status_forbidden = 403

abbrev pub status_conflict : ℕ
status_conflict = 409

abbrev pub status_internal_server_error : ℕ
status_internal_server_error = 500

abbrev pub status_service_unavailable : ℕ
status_service_unavailable = 503

module _ {S : Type 0} where
  unfoldable pub respond_json : ℕ → Body → Exec S Response
  respond_json status body = pure (record { status = status; body = body })

  unfoldable pub respond_pieces : ℕ → List Piece → Exec S Response
  unfolding respond_json
  respond_pieces status message = respond_json status (error_response message)

  unfoldable pub respond_error : ℕ → String → Exec S Response
  unfolding respond_pieces
  respond_error status message = respond_pieces status (str message ∷ [])
