-- ===== src/Api/Scheduling.antt =====
-- What the handler of a backup schedule writes into the annotations of a game server, and what the
-- backup controller reads there.
pub mod Answers
use Prim.Native.String.{◌++◌}
use kterodactyl.Prelude.{
  ℕ, ℤ, pos, negsuc, zero, suc, ◌<◌, ◌^◌, atoi, itoa, atoi-itoa, String, ◌==◌, ◌≡◌, refl, ap, sym,
  ◌∙◌, Bool, true, false, inl, inr, Option, some, none, Bool-cases, eq_iff, [], ◌∷◌, Dict, insert,
  delete, lookup-insert, lookup-delete, text_at, if◌then◌else◌,
}
use kterodactyl.Labels.{annotation_backup_schedule, annotation_backup_retention}
use kterodactyl.Kube.Meta.{Key, key_of}
use kterodactyl.Kube.Objects.{GameServer}
use kterodactyl.Backups.Schedule.{retention_count, schedule_requests, schedule_prefix}
use kterodactyl.Api.Schedules.{
  write_retention, SetBackupScheduleRequest, schedule_annotations, number_at, with_annotations,
}

abbrev is_missing : Option ℤ → Bool
is_missing none = true
is_missing (some n) = false

abbrev or_empty : Option String → String
or_empty none = ""
or_empty (some v) = v

text_at-insert :
    (key read value : String) (dict : Dict String)
    → text_at read (insert key value dict) ≡ (if key == read then value else text_at read dict)
unfolding text_at
text_at-insert key read value dict =
    ap or_empty (lookup-insert key read value dict)
    ∙ elim (Bool-cases (key == read)) [ inl e ↦ rw e refl | inr e ↦ rw e refl ]

text_at-delete :
    (key read : String) (dict : Dict String)
    → text_at read (delete key dict) ≡ (if key == read then "" else text_at read dict)
unfolding text_at
text_at-delete key read dict =
    ap or_empty (lookup-delete key read dict)
    ∙ elim (Bool-cases (key == read)) [ inl e ↦ rw e refl | inr e ↦ rw e refl ]

-- a number in the range of a 64-bit `int`
unfoldable pub IsInt : ℤ → Type 0
IsInt (pos n) = n < 2 ^ 63
IsInt (negsuc n) = n < 2 ^ 63

-- the count that a request asks for, if it asks for one
unfoldable pub asked_or : ℤ → ℤ → ℤ
asked_or default_count (pos zero) = default_count
asked_or default_count (pos (suc n)) = pos (suc n)
asked_or default_count (negsuc n) = default_count

-- No number is printed as the empty text.
itoa_nonempty : (n : ℕ) → n < 2 ^ 63 → (itoa n == "") ≡ false
unfolding atoi
itoa_nonempty n h = elim (Bool-cases (itoa n == "")) [
  | inl e ↦
      (let empty : itoa n ≡ "" = (eq_iff (itoa n) "").0 e in
        let read : atoi "" ≡ some (pos n) = ap atoi (sym empty) ∙ atoi-itoa n h in
        let bad : true ≡ false = ap is_missing read in cc)
  | inr e ↦ e
]

abbrev printed : ℤ → String
printed (pos zero) = ""
printed (pos (suc n)) = itoa (suc n)
printed (negsuc n) = ""

text_at-write_retention :
    (retention : ℤ) (annotations : Dict String)
    → text_at annotation_backup_retention (write_retention retention annotations)
      ≡ printed retention
unfolding write_retention
text_at-write_retention (pos zero) annotations = text_at-delete _ _ annotations
text_at-write_retention (pos (suc n)) annotations = text_at-insert _ _ _ annotations
text_at-write_retention (negsuc n) annotations = text_at-delete _ _ annotations

schedule_after_retention :
    (retention : ℤ) (annotations : Dict String)
    → text_at annotation_backup_schedule (write_retention retention annotations)
      ≡ text_at annotation_backup_schedule annotations
unfolding write_retention
schedule_after_retention (pos zero) annotations = text_at-delete _ _ annotations
schedule_after_retention (pos (suc n)) annotations = text_at-insert _ _ _ annotations
schedule_after_retention (negsuc n) annotations = text_at-delete _ _ annotations

text_at-schedule :
    (req : SetBackupScheduleRequest) (annotations : Dict String)
    → text_at annotation_backup_schedule (schedule_annotations req annotations) ≡ req.schedule
unfolding schedule_annotations
text_at-schedule req annotations = elim (Bool-cases (req.schedule == "")) [
  | inl e ↦ rw e (
      text_at-delete annotation_backup_retention annotation_backup_schedule
        (delete annotation_backup_schedule annotations)
      ∙ text_at-delete annotation_backup_schedule annotation_backup_schedule annotations
      ∙ sym ((eq_iff req.schedule "").0 e))
  | inr e ↦ rw e (
      schedule_after_retention req.retention
        (insert annotation_backup_schedule req.schedule annotations)
      ∙ text_at-insert annotation_backup_schedule annotation_backup_schedule req.schedule
          annotations)
]

text_at-retention :
    (req : SetBackupScheduleRequest) (annotations : Dict String)
    → text_at annotation_backup_retention (schedule_annotations req annotations)
      ≡ (if req.schedule == "" then "" else printed req.retention)
unfolding schedule_annotations
text_at-retention req annotations = elim (Bool-cases (req.schedule == "")) [
  | inl e ↦ rw e (
      text_at-delete annotation_backup_retention annotation_backup_retention
        (delete annotation_backup_schedule annotations))
  | inr e ↦ rw e (
      text_at-write_retention req.retention
        (insert annotation_backup_schedule req.schedule annotations))
]

abbrev count_of : ℤ → String → ℤ
count_of default_count text =
    if text == "" then default_count else elim (atoi text) [ none ↦ default_count | some n ↦ n ]

count_of-printed :
    (retention default_count : ℤ)
    → IsInt retention
    → count_of default_count (printed retention) ≡ asked_or default_count retention
unfolding asked_or IsInt
count_of-printed (pos zero) default_count h = refl
count_of-printed (pos (suc n)) default_count h =
    rw (itoa_nonempty (suc n) h, atoi-itoa (suc n) h) refl
count_of-printed (negsuc n) default_count h = refl

-- the count that a request leaves in the annotations, above a default
unfoldable pub count_or : ℤ → SetBackupScheduleRequest → ℤ
unfolding asked_or
count_or default_count req =
    if req.schedule == "" then default_count else asked_or default_count req.retention

count_of-request :
    (req : SetBackupScheduleRequest) (default_count : ℤ)
    → IsInt req.retention
    → count_of default_count (if req.schedule == "" then "" else printed req.retention)
      ≡ count_or default_count req
unfolding count_or
count_of-request req default_count h = elim (Bool-cases (req.schedule == "")) [
  | inl e ↦ rw e refl
  | inr e ↦ rw e (count_of-printed req.retention default_count h)
]

-- What a game server whose annotations are those of a request reads back as.
pub read_back :
    (req : SetBackupScheduleRequest) (set : GameServer) (old : Dict String)
    → set.meta.annotations ≡ schedule_annotations req old
    → IsInt req.retention
    → (text_at annotation_backup_schedule set.meta.annotations ≡ req.schedule)
      × ((configured : ℤ) → retention_count set configured ≡ count_or configured req)
      × (number_at annotation_backup_retention set.meta.annotations ≡ count_or (pos 0) req)
unfolding retention_count number_at
read_back req set old e h =
    let retained = ap (text_at annotation_backup_retention) e ∙ text_at-retention req old in
    (
      ap (text_at annotation_backup_schedule) e ∙ text_at-schedule req old,
      (λ configured. ap (count_of configured) retained ∙ count_of-request req configured h),
      ap (count_of (pos 0)) retained ∙ count_of-request req (pos 0) h,
    )

pub schedule_requests-schedule :
    (set : GameServer) (schedule : String) {key : Key}
    → text_at annotation_backup_schedule set.meta.annotations ≡ schedule
    → key_of set.meta ≡ key
    → schedule_requests set ≡ (
        if schedule == ""
        then []
        else record { namespace = key.namespace; name = schedule_prefix ++ key.name } ∷ [])
unfolding schedule_requests
schedule_requests-schedule set schedule h own = rw (← h, ← own) refl
