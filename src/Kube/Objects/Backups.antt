-- ===== src/Kube/Objects/Backups.antt =====
-- `Backup` of api/v1alpha1/backup_types.go with its parts.
use kterodactyl.Prelude.{ℕ, ℤ, String, Option, List}
use kterodactyl.Lifecycle.{BackupState}
use kterodactyl.Kube.Errors.{Piece}
use kterodactyl.Kube.Meta.{Meta, Condition}

pub record BackupSpec : Type 0 where
  pub game_server_name : String
  pub backup_paths : List String

pub record BackupStatus : Type 0 where
  pub state : BackupState
  pub s3_key : String
  pub s3_bucket : String
  pub size : ℤ
  pub started_at : Option ℕ
  pub completed_at : Option ℕ
  pub message : List Piece
  pub conditions : List Condition

pub record Backup : Type 0 where
  pub meta : Meta
  pub spec : BackupSpec
  pub status : BackupStatus
