-- ===== src/Lifecycle.antt =====
-- api/v1alpha1/gameserver_lifecycle.go and api/v1alpha1/backup_lifecycle.go: the states of a game
-- server and of a backup, and the tables of allowed transitions. The Go types are texts: `unset` is
-- the empty text, and `unknown` any text that is none of the constants.
pub mod Graph
use kterodactyl.Prelude.{String, ◌==◌, Bool, true, false, ◌||◌, List, [], ◌∷◌, if◌then◌else◌}

pub data GameServerState : Type 0 where
  unset creating starting ready allocated shutdown error : GameServerState
  unknown : String → GameServerState

pub data BackupState : Type 0 where
  unset pending in_progress completed failed : BackupState
  unknown : String → BackupState

-- `==` on the Go texts
unfoldable pub same_state : GameServerState → GameServerState → Bool
same_state GameServerState.unset GameServerState.unset = true
same_state creating creating = true
same_state starting starting = true
same_state ready ready = true
same_state allocated allocated = true
same_state shutdown shutdown = true
same_state error error = true
same_state (GameServerState.unknown s) (GameServerState.unknown t) = s == t
same_state _ _ = false

unfoldable pub same_backup_state : BackupState → BackupState → Bool
same_backup_state BackupState.unset BackupState.unset = true
same_backup_state pending pending = true
same_backup_state in_progress in_progress = true
same_backup_state completed completed = true
same_backup_state failed failed = true
same_backup_state (BackupState.unknown s) (BackupState.unknown t) = s == t
same_backup_state _ _ = false

-- A state that is no key of the map has no targets.
unfoldable pub valid_transitions : GameServerState → List GameServerState
valid_transitions creating = starting ∷ error ∷ []
valid_transitions starting = ready ∷ creating ∷ error ∷ shutdown ∷ []
valid_transitions ready = allocated ∷ creating ∷ error ∷ shutdown ∷ []
valid_transitions allocated = ready ∷ creating ∷ error ∷ shutdown ∷ []
valid_transitions shutdown = creating ∷ []
valid_transitions error = shutdown ∷ creating ∷ []
valid_transitions _ = []

unfoldable pub backup_valid_transitions : BackupState → List BackupState
backup_valid_transitions pending = in_progress ∷ failed ∷ []
backup_valid_transitions in_progress = completed ∷ failed ∷ []
backup_valid_transitions _ = []

contains : GameServerState → List GameServerState → Bool
contains to [] = false
contains to (valid ∷ rest) = if same_state valid to then true else contains to rest

backup_contains : BackupState → List BackupState → Bool
backup_contains to [] = false
backup_contains to (valid ∷ rest) =
    if same_backup_state valid to then true else backup_contains to rest

unfoldable pub is_valid_transition : GameServerState → GameServerState → Bool
unfolding contains valid_transitions same_state
is_valid_transition from to = contains to (valid_transitions from)

unfoldable pub is_terminal : GameServerState → Bool
unfolding same_state
is_terminal state = same_state state shutdown

unfoldable pub is_backup_valid_transition : BackupState → BackupState → Bool
unfolding backup_contains backup_valid_transitions same_backup_state
is_backup_valid_transition from to = backup_contains to (backup_valid_transitions from)

unfoldable pub is_backup_terminal : BackupState → Bool
unfolding same_backup_state
is_backup_terminal state = same_backup_state state completed || same_backup_state state failed
