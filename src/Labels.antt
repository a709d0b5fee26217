-- ===== src/Labels.antt =====
-- internal/util/labels.go and internal/util/networking.go: label and annotation keys, and the names
-- that are built from an owner and a game.
use Prim.Native.String.{◌++◌}
use kterodactyl.Prelude.{String, [], ◌∷◌, Dict}

abbrev pub label_managed_by : String
label_managed_by = "app.kubernetes.io/managed-by"

abbrev pub label_name : String
label_name = "app.kubernetes.io/name"

abbrev pub label_owner : String
label_owner = "kterodactyl.io/owner"

abbrev pub label_game : String
label_game = "kterodactyl.io/game"

abbrev pub label_user : String
label_user = "kterodactyl.io/user"

abbrev pub label_managed_by_kterodactyl : String
label_managed_by_kterodactyl = "kterodactyl.io/managed-by"

abbrev pub label_backup_game_server : String
label_backup_game_server = "kterodactyl.io/backup-gameserver"

abbrev pub annotation_allocated : String
annotation_allocated = "kterodactyl.io/allocated"

abbrev pub annotation_mod_path : String
annotation_mod_path = "kterodactyl.io/mod-path"

abbrev pub annotation_backup_path : String
annotation_backup_path = "kterodactyl.io/backup-path"

abbrev pub annotation_backup_schedule : String
annotation_backup_schedule = "kterodactyl.io/backup-schedule"

abbrev pub annotation_backup_retention : String
annotation_backup_retention = "kterodactyl.io/backup-retention"

abbrev pub annotation_last_backup_time : String
annotation_last_backup_time = "kterodactyl.io/last-backup-time"

abbrev pub managed_by_value : String
managed_by_value = "kterodactyl"

abbrev pub app_name_value : String
app_name_value = "gameserver"

-- fmt.Sprintf("user-%s", username)
unfoldable pub user_namespace : String → String
user_namespace username = "user-" ++ username

unfoldable pub game_server_labels : String → String → Dict String
game_server_labels owner game_type =
    (label_managed_by, managed_by_value)
    ∷ (label_name, app_name_value)
    ∷ (label_owner, owner)
    ∷ (label_game, game_type)
    ∷ []

-- fmt.Sprintf("%s.%s.%s", gameType, owner, baseDomain)
unfoldable pub game_server_dns_name : String → String → String → String
game_server_dns_name game_type owner base_domain =
    game_type ++ ("." ++ (owner ++ ("." ++ base_domain)))
