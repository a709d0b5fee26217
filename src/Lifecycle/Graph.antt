-- ===== src/Lifecycle/Graph.antt =====
-- The two tables as graphs: which states can be reached from which.
use kterodactyl.Prelude.{ℕ, suc, ◌+◌, ◌≤◌, ◌<◌, ◌≡◌, refl, true, arith, eq_iff, ◌↔◌}
use kterodactyl.Lifecycle.{
  GameServerState, creating, starting, ready, allocated, shutdown, error, BackupState, in_progress,
  completed, failed, same_state, same_backup_state, is_valid_transition, is_backup_valid_transition,
  is_backup_terminal,
}

pub same_state_iff : (a b : GameServerState) → (same_state a b ≡ true) ↔ (a ≡ b)
unfolding same_state
same_state_iff (GameServerState.unknown s) (GameServerState.unknown t) = ground (arith, eq_iff s t)
same_state_iff _ _ = ground arith

pub same_backup_state_iff : (a b : BackupState) → (same_backup_state a b ≡ true) ↔ (a ≡ b)
unfolding same_backup_state
same_backup_state_iff (BackupState.unknown s) (BackupState.unknown t) = ground (arith, eq_iff s t)
same_backup_state_iff _ _ = ground arith

-- One allowed step, and any number of them.
infix 40 ◌⟶◌ ◌⟶*◌
abbrev pub ◌⟶◌ : GameServerState → GameServerState → Type 0
a ⟶ b = is_valid_transition a b ≡ true

pub data ◌⟶*◌ (a : GameServerState) : GameServerState → Type 0 where
  here : a ⟶* a
  next : {b c : GameServerState} → a ⟶* b → b ⟶ c → a ⟶* c

abbrev pub IsKnown : GameServerState → Type 0
IsKnown GameServerState.unset = ⊥
IsKnown (GameServerState.unknown s) = ⊥
IsKnown _ = Unit

to_creating : (a : GameServerState) → IsKnown a → a ⟶* creating
unfolding is_valid_transition
to_creating creating h = here
to_creating starting h = next here refl
to_creating ready h = next here refl
to_creating allocated h = next here refl
to_creating shutdown h = next here refl
to_creating error h = next here refl
to_creating GameServerState.unset h = absurd h
to_creating (GameServerState.unknown s) h = absurd h

from_creating : (a b : GameServerState) → a ⟶* creating → IsKnown b → a ⟶* b
unfolding is_valid_transition
from_creating a creating r h = r
from_creating a starting r h = next {b = creating} r refl
from_creating a ready r h = next {b = starting} (next {b = creating} r refl) refl
from_creating a allocated r h =
    next {b = ready} (next {b = starting} (next {b = creating} r refl) refl) refl
from_creating a shutdown r h = next {b = starting} (next {b = creating} r refl) refl
from_creating a error r h = next {b = creating} r refl
from_creating a GameServerState.unset r h = absurd h
from_creating a (GameServerState.unknown s) r h = absurd h

-- Each of the six lifecycle states can be reached from each other one by allowed transitions.
pub lifecycle_connected : (a b : GameServerState) → IsKnown a → IsKnown b → a ⟶* b
lifecycle_connected a b h k = from_creating a b (to_creating a h) k

-- `n` allowed transitions of a backup
pub data BackupRun (a : BackupState) : ℕ → BackupState → Type 0 where
  start : BackupRun a 0 a
  then :
      {n : ℕ} {b c : BackupState}
      → BackupRun a n b
      → is_backup_valid_transition b c ≡ true
      → BackupRun a (suc n) c

-- how far a backup has come
abbrev pub stage : BackupState → ℕ
stage in_progress = 1
stage completed = 2
stage failed = 2
stage _ = 0

stage-lt : (a b : BackupState) → is_backup_valid_transition a b ≡ true → stage a < stage b
unfolding is_backup_valid_transition
stage-lt a b h = ground arith

stage-BackupRun : {a b : BackupState} {n : ℕ} → BackupRun a n b → stage a + n ≤ stage b
stage-BackupRun start = omega arith
stage-BackupRun (then {b} {c} r h) = omega (arith, stage-BackupRun r, stage-lt b c h)

stage-le-two : (a : BackupState) → stage a ≤ 2
stage-le-two a = ground arith

-- Allowed transitions take a backup forward only: no run has more than two of them, and a run from
-- a terminal state has none.
pub BackupRun_bounded :
    {a b : BackupState} {n : ℕ} → BackupRun a n b → (n ≤ 2) × (is_backup_terminal a ≡ true → n ≡ 0)
unfolding is_backup_terminal
BackupRun_bounded {a} {b} r = ground (arith, stage-BackupRun r, stage-le-two b)
