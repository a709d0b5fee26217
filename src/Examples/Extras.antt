-- ===== src/Examples/Extras.antt =====
-- Requests for backups, schedules and mods against the example cluster.
use kterodactyl.Prelude.{
  pos, String, ◌≡◌, refl, some, [], ◌∷◌, arith, text_at, any_char, atoi, itoa,
}
use kterodactyl.Kube.Errors.{ok}
use kterodactyl.Kube.Meta.{Key}
use kterodactyl.Api.Backups.{for_server}
use kterodactyl.Api.Responses.{Response, schedule_body}
use kterodactyl.Kube.Memory.{Memory, memory, find, get, update, update_server, put, is_finalized}
use kterodactyl.Kube.Exec.{◌>>=◌}
use kterodactyl.Kube.Memory.Satisfies.{memory_laws}
use kterodactyl.Api.Schedules.{
  SetBackupScheduleRequest, schedule_annotations, number_at, write_retention,
  handle_set_backup_schedule,
}
use kterodactyl.Api.Mods.{is_any_slash, sanitize, parse_ls_output}
use kterodactyl.Api.Extras.{Send}
use kterodactyl.Api.Filenames.{IsPlain, sanitize-IsPlain, sanitize_plain}
use kterodactyl.Api.Scheduling.{IsInt, count_or}
use kterodactyl.Api.Scheduling.Answers.{
  IsAccepted, IsKept, handle_set_backup_schedule-schedule_requests,
}
use kterodactyl.Examples.Backups.{cluster}
use kterodactyl.Examples.Storage.{clock}

abbrev send : Send Memory String
send = λ request header content m. ((ok tt, ok tt, "", ""), m)

abbrev others_backup : Key
others_backup = record { namespace = "user-ben"; name = "a" }

abbrev anas : String
anas = "user-ana"

abbrev nightly : SetBackupScheduleRequest
nightly = record { schedule = "0 3 * * *"; retention = pos 12 }

abbrev answer : Response
answer = record { status = 200; body = schedule_body "arena" "0 3 * * *" (pos 12) }

accepted_request :
    (handle_set_backup_schedule memory clock "user-ana" "arena" (ok nightly) cluster).0 ≡ ok answer
unfolding handle_set_backup_schedule for_server ◌>>=◌ get find update update_server put is_finalized
    schedule_annotations write_retention itoa text_at number_at atoi
accepted_request = refl

handle_set_backup_schedule-schedule_requests_example :
    (answer.body ≡ schedule_body "arena" "0 3 * * *" (pos 12))
    × IsAccepted memory_laws clock nightly "user-ana" "arena" (pos 5)
    × IsKept memory_laws clock nightly "user-ana" "arena"
        (pos 5)
        (handle_set_backup_schedule memory clock "user-ana" "arena" (ok nightly) cluster).1
unfolding IsInt count_or
handle_set_backup_schedule-schedule_requests_example =
    handle_set_backup_schedule-schedule_requests memory_laws clock nightly "user-ana" "arena"
      (pos 5) cluster {answer = answer} (omega arith) accepted_request refl

sanitize-IsPlain_example : IsPlain "mod.jar" × (sanitize "mod.jar" ≡ some "mod.jar")
unfolding sanitize
sanitize-IsPlain_example = sanitize-IsPlain "../plugins/mod.jar" refl

sanitize_plain_example : sanitize "mod.jar" ≡ some "mod.jar"
unfolding IsPlain any_char is_any_slash
sanitize_plain_example = sanitize_plain "mod.jar" (refl, refl, refl, refl)

-- of a name with a space, only its last word is listed
listed_files :
    parse_ls_output
      "total 8\n-rw-r--r-- 1 root root 120 Jan 1 10:00 my mod.jar\ndrwxr-xr-x 2 root root 4096 Jan 1 10:00 .\n"
    ≡ record { name = "mod.jar"; size = pos 120 } ∷ []
unfolding parse_ls_output atoi
listed_files = refl
