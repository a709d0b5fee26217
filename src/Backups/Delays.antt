-- ===== src/Backups/Delays.antt =====
-- The times of a schedule, and the objects that a scheduled backup writes.
use Prim.Native.String.{◌++◌}
use kterodactyl.Prelude.{
  ℕ, ◌-◌, ◌^◌, ◌<◌, ◌≤◌, String, ◌==◌, text_at, lookup, lookup-insert, ◌≡◌, refl, ◌⊎◌,
  if◌then◌else◌, inl, inr, true, false, Option, none, some, Bool-cases, Option-cases, arith,
}
use kterodactyl.Labels.{annotation_last_backup_time, label_backup_game_server}
use kterodactyl.Kube.Objects.{GameServer, Backup}
use kterodactyl.Backups.Storage.{Clock}
use kterodactyl.Backups.Schedule.{
  is_before, last_backup, delay_until, scheduled_backup, with_last_backup,
}

-- How long it is from a time to another: nothing if there is none, and at most what a `Duration` holds.
abbrev pub IsDelay : ℕ → Option ℕ → ℕ → Type 0
IsDelay now none delay = delay ≡ 0
IsDelay now (some due) delay =
    ((due - now < 2 ^ 63) × (delay ≡ due - now)) ⊎ ((2 ^ 63 ≤ due - now) × (delay ≡ 2 ^ 63 - 1))

-- a next time that has come, or that is missing
abbrev pub IsReached : ℕ → Option ℕ → Type 0
IsReached now none = Unit
IsReached now (some due) = due ≤ now

pub delay_until-IsDelay : (now : ℕ) (due : Option ℕ) → IsDelay now due (delay_until now due)
unfolding delay_until
delay_until-IsDelay now none = refl
delay_until-IsDelay now (some due) = ground arith

pub is_before-IsReached : (now : ℕ) (due : Option ℕ) → is_before now due ≡ false → IsReached now due
unfolding is_before
is_before-IsReached now none h = tt
is_before-IsReached now (some due) h = ground arith

module _ (clock : Clock) (now : ℕ) (gs : GameServer) where
  -- the time of the annotation, if it parses, or else of the creation
  pub data IsLast (last : Option ℕ) : Type 0 where
    annotated :
        (t : ℕ)
        → (text_at annotation_last_backup_time gs.meta.annotations == "") ≡ false
        → clock.parse_rfc3339 (text_at annotation_last_backup_time gs.meta.annotations) ≡ some t
        → last ≡ some t
        → IsLast last
    from_creation :
        ((text_at annotation_last_backup_time gs.meta.annotations == "") ≡ true)
          ⊎ (clock.parse_rfc3339 (text_at annotation_last_backup_time gs.meta.annotations) ≡ none)
        → last ≡ gs.meta.creation_timestamp
        → IsLast last

  pub last_backup-IsLast : IsLast (last_backup clock now gs)
  unfolding last_backup
  last_backup-IsLast =
      let text = text_at annotation_last_backup_time gs.meta.annotations in
      elim (Bool-cases (text == "")) [
        | inl e ↦ from_creation (inl e) (rw (e, last_backup) refl)
        | inr e ↦ elim (Option-cases (clock.parse_rfc3339 text)) [
          | inl f ↦ from_creation (inr f) (rw (e, f, last_backup) refl)
          | inr (t, f) ↦ annotated t e f (rw (e, f, last_backup) refl)
        ]
      ]

  -- a backup for the game server, by its name and label
  pub record IsScheduledBackup (o : Backup) : Type 0 where
    pub named : o.meta.name ≡ gs.meta.name ++ ("-scheduled-" ++ clock.format_compact now)
    pub beside : o.meta.namespace ≡ gs.meta.namespace
    pub of_server : o.spec.game_server_name ≡ gs.meta.name
    pub labelled : lookup label_backup_game_server o.meta.labels ≡ some gs.meta.name

  pub scheduled_backup-IsScheduledBackup : IsScheduledBackup (scheduled_backup clock now gs)
  unfolding scheduled_backup lookup
  scheduled_backup-IsScheduledBackup = record {
    named = refl;
    beside = refl;
    of_server = refl;
    labelled = refl;
  }

  -- the game server that was read, with the time in its annotation and every other annotation kept
  pub record IsNoted (fresh noted : GameServer) : Type 0 where
    pub annotations :
        (name : String)
        → lookup name noted.meta.annotations ≡ (
            if annotation_last_backup_time == name
            then some (clock.format_rfc3339 now)
            else lookup name fresh.meta.annotations)
    pub same_rest :
        noted ≡ record fresh { meta = record (fresh.meta) { annotations = noted.meta.annotations } }

  pub with_last_backup-IsNoted :
      (fresh : GameServer) → IsNoted fresh (with_last_backup clock now gs fresh)
  unfolding with_last_backup
  with_last_backup-IsNoted fresh = record {
    annotations = λ name.
        lookup-insert annotation_last_backup_time name (clock.format_rfc3339 now)
          fresh.meta.annotations;
    same_rest = refl;
  }
