-- ===== src/Backups/Making.antt =====
-- How a backup that is due is made, up to the answer.
use kterodactyl.Prelude.{
  ℕ, String, ◌∙◌, ◌≡◌, refl, ◌⊎◌, inl, inr, true, false, Option, List, some, Bool-cases,
}
use kterodactyl.Kube.Errors.{Piece, Reply, Reply-cases, ok, err, wrap, is_already_exists, Err}
use kterodactyl.Kube.Meta.{key_of}
use kterodactyl.Kube.Objects.{GameServer, game_servers, Backup, backups}
use kterodactyl.Kube.Exec.{Exec, pure, fail, attempt, modify, ◌>>=◌, ◌>>◌, wrapping}
use kterodactyl.Kube.Exec.Results.{bind-ok, wrapping-bind-ok, wrapping-bind-err}
use kterodactyl.Kube.Platform.{Platform}
use kterodactyl.Controller.Config.{AdminConfig, load_admin_config}
use kterodactyl.Controller.Namespaces.{operator_ns}
use kterodactyl.Controller.Reconcile.{Result, after}
use kterodactyl.Backups.Storage.{Storage, Clock}
use kterodactyl.Backups.Schedule.{
  delay_until, scheduled_backup, with_last_backup, after_create, retain_with, make_scheduled,
}
use kterodactyl.Backups.Delays.{
  IsDelay, delay_until-IsDelay, IsScheduledBackup, scheduled_backup-IsScheduledBackup, IsNoted,
  with_last_backup-IsNoted,
}

module _ {S C R : Type 0} (p : Platform S) (t : Storage S C R) (clock : Clock)
    (operator_namespace : String) (now : ℕ) (gs : GameServer) where
  -- the configuration is read and the retention enforced, whose errors are only logged
  abbrev pub retention : Exec S (Unit {0})
  retention =
      attempt (load_admin_config p (operator_ns operator_namespace))
      >>= retain_with p t clock operator_namespace now gs

  -- once the backup is there, in the state `u`: the game server is read and written with the time of
  -- the backup, and the request comes back at the next time; or one of the two calls fails
  pub data IsNotedAfter (next : Option ℕ → Option ℕ) (u : S) (end : Reply Result × S) : Type 0 where
    not_read :
        (e : Err)
        → (p.get game_servers (key_of gs.meta) u).0 ≡ err e
        → end ≡ (
          err (wrap "failed to re-fetch GameServer" e),
          (p.get game_servers (key_of gs.meta) u).1,
        )
        → IsNotedAfter next u end
    not_written :
        (fresh noted : GameServer) (e : Err)
        → (p.get game_servers (key_of gs.meta) u).0 ≡ ok fresh
        → IsNoted clock now gs fresh noted
        → (p.update game_servers noted (p.get game_servers (key_of gs.meta) u).1).0 ≡ err e
        → end ≡ (
          err (wrap "failed to update last backup time" e),
          (p.update game_servers noted (p.get game_servers (key_of gs.meta) u).1).1,
        )
        → IsNotedAfter next u end
    written :
        (fresh noted stored : GameServer) (delay : ℕ)
        → (p.get game_servers (key_of gs.meta) u).0 ≡ ok fresh
        → IsNoted clock now gs fresh noted
        → (p.update game_servers noted (p.get game_servers (key_of gs.meta) u).1).0 ≡ ok stored
        → IsDelay now (next (some now)) delay
        → end ≡ (
          ok (record { requeue = false; requeue_after = delay }),
          (retention (p.update game_servers noted (p.get game_servers (key_of gs.meta) u).1).1).1,
        )
        → IsNotedAfter next u end

  -- what follows the creation of the backup, up to the answer
  noting : (Option ℕ → Option ℕ) → Exec S Result
  unfolding make_scheduled
  noting next = do
    fresh ← wrapping "failed to re-fetch GameServer" (p.get game_servers (key_of gs.meta))
    wrapping "failed to update last backup time"
        (p.update game_servers (with_last_backup clock now gs fresh))
    config ← attempt (load_admin_config p (operator_ns operator_namespace))
    retain_with p t clock operator_namespace now gs config
    pure (after (delay_until now (next (some now))))

  retain_with-ok :
      (r : Reply AdminConfig) (u : S)
      → (retain_with p t clock operator_namespace now gs r u).0 ≡ ok tt
  unfolding retain_with pure attempt ◌>>=◌
  retain_with-ok (ok cfg) u = refl
  retain_with-ok (err e) u = refl

  retained :
      (next : Option ℕ → Option ℕ) (r : Reply AdminConfig) (u : S)
      → (retain_with p t clock operator_namespace now gs r
            >> pure (after (delay_until now (next (some now)))))
          u
        ≡ (
          ok (after (delay_until now (next (some now)))),
          (retain_with p t clock operator_namespace now gs r u).1,
        )
  unfolding pure
  retained next r u =
      bind-ok (retain_with p t clock operator_namespace now gs r) _ u (retain_with-ok r u)

  noting-IsNotedAfter : (next : Option ℕ → Option ℕ) (u : S) → IsNotedAfter next u (noting next u)
  unfolding noting ◌>>=◌ attempt
  noting-IsNotedAfter next u =
      let read = p.get game_servers (key_of gs.meta) in
      elim (Reply-cases (read u).0) [
        | inr (e, h) ↦ not_read e h (wrapping-bind-err "failed to re-fetch GameServer" read _ u h)
        | inl (fresh, h) ↦
            (let first = wrapping-bind-ok "failed to re-fetch GameServer" read _ u h in
              let noted = with_last_backup clock now gs fresh in
              elim (Reply-cases (p.update game_servers noted (read u).1).0) [
                | inr (e, k) ↦
                    not_written fresh noted e h (with_last_backup-IsNoted clock now gs fresh) k (
                      first
                      ∙ wrapping-bind-err "failed to update last backup time"
                          (p.update game_servers noted) _ (read u).1 k)
                | inl (stored, k) ↦
                    written fresh noted stored _ h (with_last_backup-IsNoted clock now gs fresh) k
                      (delay_until-IsDelay now (next (some now)))
                      (first
                        ∙ wrapping-bind-ok "failed to update last backup time"
                            (p.update game_servers noted) _ (read u).1 k
                        ∙ retained next _ _)
              ])
      ]

  -- a creation of the backup, which may be there already, and what follows; or a failure of it
  pub data IsMade (next : Option ℕ → Option ℕ) (s : S) (end : Reply Result × S) : Type 0 where
    not_created :
        (o : Backup) (e : Err)
        → IsScheduledBackup clock now gs o
        → (p.create backups o s).0 ≡ err e
        → is_already_exists e ≡ false
        → end ≡ (err (wrap "failed to create scheduled backup" e), (p.create backups o s).1)
        → IsMade next s end
    created :
        (o : Backup) (u : S)
        → IsScheduledBackup clock now gs o
        → ((b : Backup) × (message : List Piece) × ((p.create backups o s).0 ≡ ok b)
            × (u ≡ p.event gs.meta "Normal" "ScheduledBackup" message (p.create backups o s).1))
          ⊎ ((e : Err) × ((p.create backups o s).0 ≡ err e)
              × (is_already_exists e ≡ true)
              × (u ≡ (p.create backups o s).1))
        → IsNotedAfter next u end
        → IsMade next s end

  after_create-IsMade :
      (next : Option ℕ → Option ℕ) (s : S) (r : Reply Backup)
      → (p.create backups (scheduled_backup clock now gs) s).0 ≡ r
      → IsMade next s (
          (after_create p t clock operator_namespace now gs r >>= λ done_first. noting next)
            (p.create backups (scheduled_backup clock now gs) s).1)
  unfolding after_create ◌>>=◌ modify pure fail
  after_create-IsMade next s (ok b) h =
      created (scheduled_backup clock now gs) _ (scheduled_backup-IsScheduledBackup clock now gs)
        (inl (b, _, h, refl)) (noting-IsNotedAfter next _)
  after_create-IsMade next s (err e) h = elim (Bool-cases (is_already_exists e)) [
    | inl f ↦ rw f (
        created (scheduled_backup clock now gs) _ (scheduled_backup-IsScheduledBackup clock now gs)
          (inr (e, h, f, refl)) (noting-IsNotedAfter next _))
    | inr f ↦ rw f (
        not_created (scheduled_backup clock now gs) e
          (scheduled_backup-IsScheduledBackup clock now gs) h f refl)
  ]

  pub make_scheduled-IsMade :
      (next : Option ℕ → Option ℕ) (s : S)
      → IsMade next s (make_scheduled p t clock operator_namespace now gs next s)
  unfolding make_scheduled noting ◌>>=◌ attempt
  make_scheduled-IsMade next s = after_create-IsMade next s _ refl
