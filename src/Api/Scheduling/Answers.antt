-- ===== src/Api/Scheduling/Answers.antt =====
-- From the answer of `handleSetBackupSchedule` to what the backup controller reads.
use Prim.Native.String.{◌++◌}
use kterodactyl.Prelude.{
  ℕ, ℤ, pos, String, ◌==◌, ◌≡◌, ◌⊎◌, inl, inr, refl, sym, ap, subst, ◌∙◌, Bool, true, false, none,
  some, Option, [], ◌∷◌, text_at, arith, if◌then◌else◌,
}
use kterodactyl.Labels.{annotation_backup_schedule}
use kterodactyl.Kube.Errors.{Reply, ok, err}
use kterodactyl.Kube.Meta.{Key, key_of}
use kterodactyl.Kube.Objects.{GameServer, game_servers}
use kterodactyl.Kube.Exec.{Exec, pure, attempt, ◌>>=◌}
use kterodactyl.Kube.Platform.{Platform, Laws}
use kterodactyl.Backups.Storage.{Clock}
use kterodactyl.Backups.Schedule.{retention_count, schedule_requests, schedule_prefix}
use kterodactyl.Api.Responses.{
  Response, Body, schedule_body, status_ok, respond_json, respond_pieces, respond_error,
}
use kterodactyl.Api.Servers.{with_valid}
use kterodactyl.Api.Backups.{server_or_404, for_server}
use kterodactyl.Api.Schedules.{
  SetBackupScheduleRequest, schedule_annotations, with_annotations, schedule_written,
  write_schedule, if_parsed, set_schedule, handle_set_backup_schedule,
}
use kterodactyl.Api.Scheduling.{IsInt, count_or, read_back, schedule_requests-schedule}

-- the handler has answered, and the answer 200 means `P` of the state and the body
abbrev Answers : {S : Type 0} → (S → Body → Type 0) → Reply Response × S → Type 0
Answers P (ok a, s) = a.status ≡ status_ok → P s a.body
Answers P (err e, s) = ⊥

Answers-if :
    {S : Type 0} (P : S → Body → Type 0) (b : Bool) (m n : Exec S Response) (s : S)
    → (b ≡ true → Answers P (m s))
    → (b ≡ false → Answers P (n s))
    → Answers P ((if b then m else n) s)
Answers-if P true m n s h k = h refl
Answers-if P false m n s h k = k refl

answered :
    {S : Type 0} (P : S → Body → Type 0) (out : Reply Response × S) {answer : Response}
    → Answers P out
    → out.0 ≡ ok answer
    → answer.status ≡ status_ok
    → P out.1 answer.body
answered P (ok a, s) h e c =
    let same : a ≡ _ = cc in
    subst (λ (x : Response). P s x.body) same (h (ap (λ (x : Response). x.status) same ∙ c))
answered P (err e, s) h _ c = absurd h

module _ {S : Type 0} {p : Platform S} (l : Laws p) (clock : Clock) (req : SetBackupScheduleRequest)
    (ns server : String) (configured : ℤ) where
  -- the schedule of a request is empty, or parses
  abbrev pub IsAccepted : Type 0
  IsAccepted =
      ((req.schedule == "") ≡ true)
      ⊎ ((next : Option ℕ → Option ℕ) × (clock.parse_schedule req.schedule ≡ ok next))

  -- a stored game server that the backup controller reads as the request asks
  abbrev pub IsKept : S → Type 0
  IsKept s =
      (l.at game_servers s (record { namespace = ns; name = server }) ≡ none)
      ⊎ ((set : GameServer) × (l.at game_servers s (record { namespace = ns; name = server })
            ≡ some set)
          × (schedule_requests set ≡ (
              if req.schedule == ""
              then []
              else record { namespace = ns; name = schedule_prefix ++ server } ∷ []))
          × (text_at annotation_backup_schedule set.meta.annotations ≡ req.schedule)
          × (retention_count set configured ≡ count_or configured req))

  abbrev pub Sets : S → Body → Type 0
  Sets s body =
      (body ≡ schedule_body server req.schedule (count_or (pos 0) req)) × IsAccepted × IsKept s

module _ {S : Type 0} {p : Platform S} (l : Laws p) (clock : Clock) (req : SetBackupScheduleRequest)
    (ns server : String) (configured : ℤ) (int : IsInt req.retention) where
  abbrev Means : S → Body → Type 0
  Means s body = Sets l clock req ns server configured s body

  Answers-schedule_written :
      (r : Reply GameServer) (s : S)
      → ((gs : GameServer)
          → r ≡ ok gs
          → (old : _) × (gs.meta.annotations ≡ schedule_annotations req old))
      → IsAccepted l clock req ns server configured
      → ((gs : GameServer) → r ≡ ok gs → IsKept l clock req ns server configured s)
      → Answers Means (schedule_written p server r s)
  unfolding schedule_written respond_json respond_error respond_pieces pure
  Answers-schedule_written (err e) s h allowed set = λ c. absurd (omega (arith, c))
  Answers-schedule_written (ok gs) s h allowed set =
      let (old, same) = h gs refl in
      let (schedule, _, count) = read_back req gs old same int in
      λ c. (
        ap (schedule_body server (text_at annotation_backup_schedule gs.meta.annotations)) count
            ∙ ap (λ x. schedule_body server x (count_or (pos 0) req)) schedule,
        allowed,
        set gs refl,
      )

  updated :
      (gs new : GameServer) (s : S) (sent : Key)
      → sent ≡ record { namespace = ns; name = server }
      → key_of new.meta ≡ sent
      → l.at game_servers s sent ≡ some new
      → new.meta.annotations ≡ schedule_annotations req gs.meta.annotations
      → IsKept l clock req ns server configured s
  updated gs new s sent here own stored same =
      let (schedule, count, _) = read_back req new gs.meta.annotations same int in
      inr (
        new,
        ap (l.at game_servers s) (sym here) ∙ stored,
        schedule_requests-schedule new req.schedule schedule (own ∙ here),
        schedule,
        count configured,
      )

  Answers-write_schedule :
      (gs : GameServer) (s : S)
      → key_of gs.meta ≡ record { namespace = ns; name = server }
      → IsAccepted l clock req ns server configured
      → Answers Means (write_schedule p req server gs s)
  unfolding write_schedule with_annotations ◌>>=◌ attempt
  Answers-write_schedule gs s here allowed =
      let sent = with_annotations (schedule_annotations req gs.meta.annotations) gs in
      Answers-schedule_written (p.update game_servers sent s).0 (p.update game_servers sent s).1
        (λ o e. (gs.meta.annotations, (l.update_ok sent s e).0)) allowed
        λ o e. elim (l.update_ok sent s e).1 [
          | inl gone ↦ inl (ap (l.at game_servers _) (sym here) ∙ gone)
          | inr (new, stored, own, same) ↦ updated gs new _ (key_of gs.meta) here own stored same
        ]

  Answers-if_parsed :
      (gs : GameServer) (s : S) (r : Reply (Option ℕ → Option ℕ))
      → key_of gs.meta ≡ record { namespace = ns; name = server }
      → clock.parse_schedule req.schedule ≡ r
      → Answers Means (if_parsed p r (write_schedule p req server gs) s)
  unfolding if_parsed respond_json respond_pieces pure
  Answers-if_parsed gs s (ok next) here e = Answers-write_schedule gs s here (inr (next, e))
  Answers-if_parsed gs s (err x) here e = λ c. absurd (omega (arith, c))

  Answers-set_schedule :
      (gs : GameServer) (s : S)
      → key_of gs.meta ≡ record { namespace = ns; name = server }
      → Answers Means (set_schedule p clock req server gs s)
  unfolding set_schedule
  Answers-set_schedule gs s here =
      Answers-if Means (req.schedule == "") _ _ s (λ e. Answers-write_schedule gs s here (inl e))
        (λ e. Answers-if_parsed gs s (clock.parse_schedule req.schedule) here refl)

  Answers-server_or_404 :
      (s t : S) (r : Reply GameServer)
      → (p.get game_servers (record { namespace = ns; name = server }) s).0 ≡ r
      → Answers Means (server_or_404 p server (set_schedule p clock req server) r t)
  unfolding server_or_404 respond_error respond_json respond_pieces pure
  Answers-server_or_404 s t (ok gs) e =
      Answers-set_schedule gs t
        (l.get_ok game_servers (record { namespace = ns; name = server }) s e).1
  Answers-server_or_404 s t (err x) e = λ c. absurd (omega (arith, c))

  Answers-handle_set_backup_schedule :
      (s : S) → Answers Means (handle_set_backup_schedule p clock ns server (ok req) s)
  unfolding handle_set_backup_schedule with_valid for_server attempt ◌>>=◌ respond_error
      respond_json respond_pieces pure
  Answers-handle_set_backup_schedule s =
      Answers-if Means (ns == "") _ _ s (λ e. λ c. absurd (omega (arith, c)))
        (λ e. Answers-server_or_404 s _ _ refl)

-- Where the handler of a schedule answers 200 to a request whose retention is in the range of `int`,
-- the schedule is empty or parses, and the body has it and the number of backups that the request
-- asks for, or 0 where it has no schedule or asks for none above zero. The game server under the name
-- is gone, with its last finalizer, or the backup controller finds in it what was asked for: it gives
-- a request for its schedule if and only if there is one, the schedule is the one of the request, and
-- as many backups are kept as the request asks for, or as configured where it has no schedule or asks
-- for none above zero.
pub handle_set_backup_schedule-schedule_requests :
    {S : Type 0} {p : Platform S} (l : Laws p) (clock : Clock) (req : SetBackupScheduleRequest)
    (ns server : String) (configured : ℤ) (s : S) {answer : Response}
    → IsInt req.retention
    → (handle_set_backup_schedule p clock ns server (ok req) s).0 ≡ ok answer
    → answer.status ≡ 200
    → (answer.body ≡ schedule_body server req.schedule (count_or (pos 0) req))
      × IsAccepted l clock req ns server configured
      × IsKept l clock req ns server configured
          (handle_set_backup_schedule p clock ns server (ok req) s).1
handle_set_backup_schedule-schedule_requests l clock req ns server configured s int h c =
    let (body, allowed, set) =
      answered (Sets l clock req ns server configured) _
        (Answers-handle_set_backup_schedule l clock req ns server configured int s) h c in
    (body, allowed, set)
