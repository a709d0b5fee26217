-- ===== src/Backups/Due.antt =====
-- When the schedule of a game server makes a backup, and when its request comes back.
use kterodactyl.Prelude.{ℕ, ◌<◌, String, ◌==◌, text_at, ◌≡◌, true, false, Option, some}
use kterodactyl.Labels.{annotation_backup_schedule}
use kterodactyl.Kube.Errors.{Reply, ok, err, Err}
use kterodactyl.Kube.Objects.{GameServer}
use kterodactyl.Kube.Platform.{Platform}
use kterodactyl.Controller.Reconcile.{Result}
use kterodactyl.Backups.Storage.{Storage, Clock}
use kterodactyl.Backups.Running.{is_running}
use kterodactyl.Backups.Delays.{IsDelay, IsReached, IsLast}
use kterodactyl.Backups.Making.{IsMade}

module _ {S C R : Type 0} (p : Platform S) (t : Storage S C R) (clock : Clock)
    (operator_namespace : String) (now : ℕ) (gs : GameServer) where
  -- a running game server with a schedule that parses
  pub record IsScheduled (next : Option ℕ → Option ℕ) : Type 0 where
    pub has_schedule : (text_at annotation_backup_schedule gs.meta.annotations == "") ≡ false
    pub running : is_running gs.status.state ≡ true
    pub parsed :
        clock.parse_schedule (text_at annotation_backup_schedule gs.meta.annotations) ≡ ok next

  -- no schedule, no running server, or a schedule that does not parse
  pub data IsIdle : Type 0 where
    no_schedule : (text_at annotation_backup_schedule gs.meta.annotations == "") ≡ true → IsIdle
    not_running : is_running gs.status.state ≡ false → IsIdle
    no_parse :
        (e : Err)
        → clock.parse_schedule (text_at annotation_backup_schedule gs.meta.annotations) ≡ err e
        → IsIdle

  -- what a reconciliation of the schedule comes to
  pub data Outcome (s : S) (end : Reply Result × S) : Type 0 where
    idles : IsIdle → end ≡ (ok (record { requeue = false; requeue_after = 0 }), s) → Outcome s end
    waits :
        (next : Option ℕ → Option ℕ) (last : Option ℕ) (due delay : ℕ)
        → IsScheduled next
        → IsLast clock now gs last
        → next last ≡ some due
        → now < due
        → IsDelay now (some due) delay
        → end ≡ (ok (record { requeue = false; requeue_after = delay }), s)
        → Outcome s end
    makes :
        (next : Option ℕ → Option ℕ) (last : Option ℕ)
        → IsScheduled next
        → IsLast clock now gs last
        → IsReached now (next last)
        → IsMade p t clock operator_namespace now gs next s end
        → Outcome s end
