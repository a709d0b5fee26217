-- ===== src/Backups/Requests.antt =====
-- How the backup controller tells the requests for schedules from those for backups.
use Prim.Native.Char.{code}
use Prim.Native.String.{◌++◌}
use text.Mathlib.TextLemmas.{nil-append, cons-append}
use kterodactyl.Prelude.{
  ℕ, String, ◌==◌, text_at, ◌≡◌, refl, inl, inr, true, some, length, All, Bool-cases, arith, nat_eq,
  if◌then◌else◌,
}
use kterodactyl.Labels.{annotation_backup_schedule}
use kterodactyl.Kube.Meta.{key_of}
use kterodactyl.Kube.Objects.{GameServer, game_servers}
use kterodactyl.Kube.Exec.{attempt, ◌>>=◌}
use kterodactyl.Kube.Platform.{Platform}
use kterodactyl.Backups.Storage.{Storage, Clock}
use kterodactyl.Backups.Schedule.{
  without_prefix, schedule_prefix, scheduled_found, reconcile_named, reconcile_request,
  schedule_requests,
}

same_code : (n : ℕ) → nat_eq n n ≡ true
same_code n = ground arith

-- What is put before a text can be taken off it.
pub without_prefix-append : (prefix s : String) → without_prefix prefix (prefix ++ s) ≡ some s
unfolding without_prefix
without_prefix-append String.[] s = rw nil-append refl
without_prefix-append (String.◌∷◌ c prefix) s =
    rw cons-append (rw (same_code (code c)) (without_prefix-append prefix s))

module _ {S C R : Type 0} (p : Platform S) (t : Storage S C R) (clock : Clock)
    (operator_namespace : String) (now : ℕ) where
  prefixed :
      (namespace rest : String) (s : S)
      → reconcile_request p t clock operator_namespace now
          (record { namespace = namespace; name = schedule_prefix ++ rest })
          s
        ≡ (attempt (p.get game_servers (record { namespace = namespace; name = rest }))
              >>= scheduled_found p t clock operator_namespace now)
            s
  unfolding reconcile_request reconcile_named
  prefixed namespace rest s = rw (without_prefix-append schedule_prefix rest) refl

  -- A watched game server with a schedule gives one request, and one without gives none; and the
  -- request is reconciled as the schedule of the game server that is stored under the same key.
  pub reconcile_request-schedule_requests :
      (gs : GameServer) (s : S)
      → All
          (λ key.
            reconcile_request p t clock operator_namespace now key s
            ≡ (attempt (p.get game_servers (key_of gs.meta))
                  >>= scheduled_found p t clock operator_namespace now)
                s)
          (schedule_requests gs)
        × (length (schedule_requests gs)
            ≡ (if text_at annotation_backup_schedule gs.meta.annotations == "" then 0 else 1))
  unfolding schedule_requests
  reconcile_request-schedule_requests gs s =
      elim (Bool-cases (text_at annotation_backup_schedule gs.meta.annotations == "")) [
        | inl e ↦ rw e (tt, refl)
        | inr e ↦ rw e ((prefixed gs.meta.namespace gs.meta.name s, tt), refl)
      ]
