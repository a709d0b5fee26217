-- ===== src/Api/Isolation/Backups.antt =====
-- A request for backups or mods reaches the objects of its own namespace only.
use kterodactyl.Prelude.{ℕ, String, ◌==◌, ◌≡◌, ◌≢◌, inr, refl, ap, ◌∙◌, none, List}
use kterodactyl.Kube.Errors.{Piece, Reply, ok, err, ok_inj}
use kterodactyl.Kube.Meta.{Key}
use kterodactyl.Kube.Objects.{GameServer, game_servers, Backup, backups, Kind}
use kterodactyl.Kube.Exec.{Exec, attempt}
use kterodactyl.Kube.Exec.Leaves.{Leaves, Leaves-attempt, Leaves-if, Leaves-bind, Leaves-bind_of}
use kterodactyl.Kube.Platform.{Platform, Laws}
use kterodactyl.Kube.Platform.Frame.{stored_at, Leaves-get, Leaves-list, Leaves-update_of}
use kterodactyl.Kube.Platform.Away.{Leaves-create_away, Leaves-delete_away, Leaves-status_away}
use kterodactyl.Backups.Storage.{Clock}
use kterodactyl.Backups.Running.{is_running}
use kterodactyl.Api.Backups.{
  for_server, server_or_404, for_backup, backup_or_404, any_in_progress, new_backup, state_written,
  backup_created, create_unless_running, create_backup_of, handle_create_backup, backups_listed,
  handle_list_backups, backup_deleted, handle_delete_backup,
}
use kterodactyl.Api.Schedules.{
  SetBackupScheduleRequest, schedule_written, write_schedule, if_parsed, set_schedule,
  handle_set_backup_schedule,
}
use kterodactyl.Api.Responses.{Body, respond_json, respond_error, respond_pieces}
use kterodactyl.Api.Servers.{Handler}
use kterodactyl.Api.Isolation.{
  Safe-respond_json, Safe-respond_pieces, Safe-respond_error, Safe-with_valid,
}

module _ {S : Type 0} {p : Platform S} (l : Laws p) (ns : String) (j : Kind) (q : Key)
    (away : q.namespace ≢ ns) where
  abbrev pub Spares : {A : Type 0} → Exec S A → Type 0
  Spares m = Leaves (stored_at l j q) m

  pub json : (status : ℕ) (body : Body) → Spares (respond_json status body)
  json status body = Safe-respond_json l ns j q (inr away) status body

  pub refused : (status : ℕ) (message : String) → Spares (respond_error status message)
  refused status message = Safe-respond_error l ns j q (inr away) status message

  pub pieces : (status : ℕ) (message : List Piece) → Spares (respond_pieces status message)
  pieces status message = Safe-respond_pieces l ns j q (inr away) status message

  pub other_key : {key : Key} → key.namespace ≡ ns → q ≢ key
  other_key e h = away (ap (λ k. k.namespace) h ∙ e)

  module _ (name : String) (next : GameServer → Handler p)
      (h : (gs : GameServer) → gs.meta.namespace ≡ ns → Spares (next gs)) where
    Spares-server_or_404 :
        (s : S) (r : Reply GameServer)
        → (p.get game_servers (record { namespace = ns; name = name }) s).0 ≡ r
        → Spares (server_or_404 p name next r)
    unfolding server_or_404
    Spares-server_or_404 s (ok gs) e = h gs (
        ap (λ k. k.namespace)
          (l.get_ok game_servers (record { namespace = ns; name = name }) s e).1)
    Spares-server_or_404 s (err x) e = refused _ _

    pub Spares-for_server : Spares (for_server p ns name next)
    unfolding for_server attempt
    Spares-for_server =
        Leaves-bind_of _ _ (Leaves-attempt _ (Leaves-get l j q game_servers _))
          λ s r e. Spares-server_or_404 s r (ok_inj e)

  module _ (server name : String) (next : Backup → Handler p)
      (h : (b : Backup) → b.meta.namespace ≡ ns → Spares (next b)) where
    Spares-backup_or_404 :
        (s : S) (r : Reply Backup)
        → (p.get backups (record { namespace = ns; name = name }) s).0 ≡ r
        → Spares (backup_or_404 p server name next r)
    unfolding backup_or_404
    Spares-backup_or_404 s (ok b) e =
        Leaves-if (b.spec.game_server_name == server) _ _
          (h b (
            ap (λ k. k.namespace)
              (l.get_ok backups (record { namespace = ns; name = name }) s e).1))
          (refused _ _)
    Spares-backup_or_404 s (err x) e = refused _ _

    pub Spares-for_backup : Spares (for_backup p ns server name next)
    unfolding for_backup attempt
    Spares-for_backup =
        Leaves-bind_of _ _ (Leaves-attempt _ (Leaves-get l j q backups _))
          λ s r e. Spares-backup_or_404 s r (ok_inj e)

  Spares-state_written : (r : Reply Backup) → Spares (state_written p r)
  unfolding state_written
  Spares-state_written (ok b) = json _ _
  Spares-state_written (err e) = refused _ _

  Spares-backup_created :
      (o : Backup) (s : S) (r : Reply Backup)
      → o.meta.namespace ≡ ns
      → (p.create backups o s).0 ≡ r
      → Spares (backup_created p r)
  unfolding backup_created
  Spares-backup_created o s (err x) here e = refused _ _
  Spares-backup_created o s (ok b) here e =
      Leaves-bind _ _
        (Leaves-attempt _ (
          Leaves-status_away l j q _
            (other_key (ap (λ k. k.namespace) (l.create_key backups o s e) ∙ here))))
        Spares-state_written

  Spares-create_unless_running :
      (server time : String) (r : Reply (List Backup))
      → Spares (create_unless_running p ns server time r)
  unfolding create_unless_running new_backup attempt
  Spares-create_unless_running server time (err e) = refused _ _
  Spares-create_unless_running server time (ok items) =
      let new = new_backup ns server time in
      Leaves-if (any_in_progress items) _ _ (refused _ _) (
        Leaves-bind_of _ _ (Leaves-attempt _ (Leaves-create_away l j q new (other_key refl)))
          λ s r e. Spares-backup_created new s r refl (ok_inj e))

  Spares-create_backup_of :
      (server time : String) (gs : GameServer) → Spares (create_backup_of p ns server time gs)
  unfolding create_backup_of
  Spares-create_backup_of server time gs =
      Leaves-if (is_running gs.status.state) _ _
        (Leaves-bind _ _ (Leaves-attempt _ (Leaves-list l j q backups _ _))
          (Spares-create_unless_running server time))
        (refused _ _)

  Spares-backups_listed :
      (clock : Clock) (r : Reply (List Backup)) → Spares (backups_listed p clock r)
  unfolding backups_listed
  Spares-backups_listed clock (ok items) = json _ _
  Spares-backups_listed clock (err e) = refused _ _

  Spares-backup_deleted : (r : Reply (Unit {0})) → Spares (backup_deleted p r)
  unfolding backup_deleted
  Spares-backup_deleted (ok u) = json _ _
  Spares-backup_deleted (err e) = refused _ _

  Spares-schedule_written :
      (server : String) (r : Reply GameServer) → Spares (schedule_written p server r)
  unfolding schedule_written
  Spares-schedule_written server (ok gs) = json _ _
  Spares-schedule_written server (err e) = refused _ _

  Spares-write_schedule :
      (req : SetBackupScheduleRequest) (server : String) (gs : GameServer)
      → gs.meta.namespace ≡ ns
      → Spares (write_schedule p req server gs)
  unfolding write_schedule
  Spares-write_schedule req server gs e =
      Leaves-bind _ _ (Leaves-attempt _ (Leaves-update_of l j q _ (inr (other_key e))))
        (Spares-schedule_written server)

  Spares-if_parsed :
      {A : Type 0} (r : Reply A) (next : Handler p) → Spares next → Spares (if_parsed p r next)
  unfolding if_parsed
  Spares-if_parsed (ok a) next h = h
  Spares-if_parsed (err e) next h = pieces _ _

  Spares-set_schedule :
      (clock : Clock) (req : SetBackupScheduleRequest) (server : String) (gs : GameServer)
      → gs.meta.namespace ≡ ns
      → Spares (set_schedule p clock req server gs)
  unfolding set_schedule
  Spares-set_schedule clock req server gs e =
      Leaves-if (req.schedule == "") _ _ (Spares-write_schedule req server gs e)
        (Spares-if_parsed _ _ (Spares-write_schedule req server gs e))

  pub Spares-handle_create_backup :
      (clock : Clock) (now : ℕ) (server : String)
      → Spares (handle_create_backup p clock now ns server)
  unfolding handle_create_backup
  Spares-handle_create_backup clock now server =
      Leaves-if (ns == "") _ _ (refused _ _)
        (Spares-for_server server _ λ gs e. Spares-create_backup_of server _ gs)

  pub Spares-handle_list_backups :
      (clock : Clock) (server : String) → Spares (handle_list_backups p clock ns server)
  unfolding handle_list_backups
  Spares-handle_list_backups clock server = Leaves-if (ns == "") _ _ (refused _ _) (
      Spares-for_server server _ λ gs e.
        Leaves-bind _ _ (Leaves-attempt _ (Leaves-list l j q backups _ _))
          (Spares-backups_listed clock))

  pub Spares-handle_delete_backup :
      (server name : String) → Spares (handle_delete_backup p ns server name)
  unfolding handle_delete_backup
  Spares-handle_delete_backup server name = Leaves-if (ns == "") _ _ (refused _ _) (
      Spares-for_backup server name _ λ b e.
        Leaves-bind _ _ (Leaves-attempt _ (Leaves-delete_away l j q b (other_key e) none))
          Spares-backup_deleted)

  pub Spares-handle_set_backup_schedule :
      (clock : Clock) (server : String) (decoded : Reply SetBackupScheduleRequest)
      → Spares (handle_set_backup_schedule p clock ns server decoded)
  unfolding handle_set_backup_schedule
  Spares-handle_set_backup_schedule clock server decoded = Leaves-if (ns == "") _ _ (refused _ _) (
      Safe-with_valid l ns j q (inr away) decoded _
        λ req. Spares-for_server server _ (Spares-set_schedule clock req server))
