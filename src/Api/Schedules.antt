-- ===== src/Api/Schedules.antt =====
-- `handleSetBackupSchedule` of internal/api/handlers_backups.go.
use kterodactyl.Prelude.{
  ℤ, pos, negsuc, zero, suc, atoi, String, ◌==◌, none, some, [], ◌∷◌, Dict, insert, delete, itoa,
  text_at, if◌then◌else◌,
}
use kterodactyl.Labels.{annotation_backup_schedule, annotation_backup_retention}
use kterodactyl.Kube.Errors.{str, of_err, Reply, ok, err}
use kterodactyl.Kube.Objects.{GameServer, game_servers}
use kterodactyl.Kube.Exec.{attempt, ◌>>=◌}
use kterodactyl.Kube.Platform.{Platform}
use kterodactyl.Backups.Storage.{Clock}
use kterodactyl.Api.Responses.{
  schedule_body, status_ok, status_bad_request, status_internal_server_error, respond_json,
  respond_pieces, respond_error,
}
use kterodactyl.Api.Servers.{Handler, no_namespace, with_valid}
use kterodactyl.Api.Backups.{for_server}

-- the decoded body of `handleSetBackupSchedule`
pub record SetBackupScheduleRequest : Type 0 where
  pub schedule : String
  pub retention : ℤ

unfoldable pub write_retention : ℤ → Dict String → Dict String
unfolding insert delete itoa
write_retention (pos zero) annotations = delete annotation_backup_retention annotations
write_retention (pos (suc n)) annotations =
    insert annotation_backup_retention (itoa (suc n)) annotations
write_retention (negsuc n) annotations = delete annotation_backup_retention annotations

-- the annotations after a request whose schedule parses, or is empty
unfoldable pub schedule_annotations : SetBackupScheduleRequest → Dict String → Dict String
unfolding insert delete write_retention
schedule_annotations req annotations =
    if req.schedule == ""
    then delete annotation_backup_retention (delete annotation_backup_schedule annotations)
    else write_retention req.retention (insert annotation_backup_schedule req.schedule annotations)

-- the number in an annotation, or 0
unfoldable pub number_at : String → Dict String → ℤ
unfolding text_at
number_at key annotations =
    let text = text_at key annotations in
    if text == "" then pos 0 else elim (atoi text) [ none ↦ pos 0 | some n ↦ n ]

unfoldable pub with_annotations : Dict String → GameServer → GameServer
with_annotations annotations gs = record gs {
  meta = record (gs.meta) { annotations = annotations };
}

module _ {S : Type 0} (p : Platform S) where
  unfoldable pub schedule_written : String → Reply GameServer → Handler p
  unfolding respond_error text_at number_at
  schedule_written server (err e) =
      respond_error status_internal_server_error "failed to update backup schedule"
  schedule_written server (ok gs) = respond_json status_ok (
      schedule_body server (text_at annotation_backup_schedule gs.meta.annotations)
        (number_at annotation_backup_retention gs.meta.annotations))

  unfoldable pub write_schedule : SetBackupScheduleRequest → String → GameServer → Handler p
  unfolding schedule_annotations schedule_written with_annotations
  write_schedule req server gs = do
    r ←
        attempt (
          p.update game_servers
            (with_annotations (schedule_annotations req gs.meta.annotations) gs))
    schedule_written server r

  unfoldable pub if_parsed : {A : Type 0} → Reply A → Handler p → Handler p
  unfolding respond_pieces
  if_parsed (ok a) next = next
  if_parsed (err e) next =
      respond_pieces status_bad_request (str "invalid cron expression: " ∷ of_err e ∷ [])

  unfoldable pub set_schedule : Clock → SetBackupScheduleRequest → String → GameServer → Handler p
  unfolding if_parsed write_schedule
  set_schedule clock req server gs =
      if req.schedule == ""
      then write_schedule req server gs
      else if_parsed (clock.parse_schedule req.schedule) (write_schedule req server gs)

  unfoldable pub handle_set_backup_schedule :
      Clock → String → String → Reply SetBackupScheduleRequest → Handler p
  unfolding for_server set_schedule with_valid
  handle_set_backup_schedule clock ns server decoded =
      if ns == ""
      then no_namespace p
      else with_valid p decoded λ req. for_server p ns server (set_schedule clock req server)
