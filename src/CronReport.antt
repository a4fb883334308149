-- ===== src/CronReport.antt =====
-- internal/operations/cron_notify.go: what the operator hears about a scheduled run, and how a
-- recorded run is read. The reasons of failures and the texts of the messages are left out, and so
-- is what the notification channels answer: no failure of theirs changes the run.
pub mod Recorded
mod Tests
use oddk.Base.{
  ℕ, Bool, true, false, not, ◌&&◌, ◌||◌, Option, none, some, List, [], ◌∷◌, ◌++◌, String, str_eq,
  any, if◌then◌else◌,
}
use oddk.CronLogs.{CronLog, PhaseLog, get_latest_log_for_instance, update_log}

-- The columns' prefixes: "backup", "backup_upload", "backup_cleanup", "backup_remote_cleanup".
pub data Phase : Type 0 where
  backup backup_upload backup_cleanup backup_remote_cleanup : Phase

abbrev pub failed_phase : PhaseLog → Bool
failed_phase p = elim p.status [ none ↦ false | some s ↦ str_eq s "fail" ]

abbrev pub recorded_phase : PhaseLog → Bool
recorded_phase p = elim p.status [ none ↦ false | some s ↦ true ]

unfoldable pub cron_log_failed : Option CronLog → Bool
cron_log_failed none = false
cron_log_failed (some l) =
    if failed_phase l.backup
      || (failed_phase l.backup_upload
          || (failed_phase l.backup_cleanup || failed_phase l.backup_remote_cleanup))
    then true
    else not (
        recorded_phase l.backup
        || (recorded_phase l.backup_upload
            || (recorded_phase l.backup_cleanup || recorded_phase l.backup_remote_cleanup)))

pub record Reporter : Type 0 where
  pub previous_run_failed : Bool
  pub archive_produced : Bool
  pub failures : List Phase

-- The previous run is read before this run's row is there. A failed read is no failure.
unfoldable pub new_cron_run_reporter : Bool → String → List CronLog → Reporter
unfolding cron_log_failed
new_cron_run_reporter refused key rows = record {
  previous_run_failed = elim (get_latest_log_for_instance refused key rows) [
    | none ↦ false
    | some prev ↦ cron_log_failed prev
  ];
  archive_produced = false;
  failures = [];
}

unfoldable pub record_phase : Phase → String → Reporter → Reporter
record_phase phase status r =
    if str_eq status "fail" then record r { failures = r.failures ++ phase ∷ [] } else r

pub note_archive : Reporter → Reporter
note_archive r = record r { archive_produced = true }

pub data Message : Type 0 where
  failed recovered : Message

abbrev pub is_empty {ℓ} : {A : Type ℓ} → List A → Bool
is_empty [] = true
is_empty (x ∷ xs) = false

-- At most one message for the whole run.
unfoldable pub finish : Reporter → Option Message
finish r =
    if not (is_empty r.failures)
    then some failed
    else if r.previous_run_failed
    then some recovered
    else none

abbrev is_backup : Phase → Bool
is_backup backup = true
is_backup _ = false

pub capture_failed : Reporter → Bool
capture_failed r = any is_backup r.failures

pub captured_nothing : Reporter → Bool
unfolding capture_failed
captured_nothing r = capture_failed r && not r.archive_produced

pub captured_partially : Reporter → Bool
unfolding capture_failed
captured_partially r = capture_failed r && r.archive_produced

-- `phase` of internal/operations/cron_task.go: the three updates of the row, of which the last is
-- made for a failure that has a cause, and the reporter's record.
abbrev pub set_phase : Phase → (PhaseLog → PhaseLog) → CronLog → CronLog
set_phase backup f l = record l { backup = f l.backup }
set_phase backup_upload f l = record l { backup_upload = f l.backup_upload }
set_phase backup_cleanup f l = record l { backup_cleanup = f l.backup_cleanup }
set_phase backup_remote_cleanup f l = record l { backup_remote_cleanup = f l.backup_remote_cleanup }

pub record Outcome : Type 0 where
  pub name : Phase
  pub status : String
  pub finished_at : ℕ
  pub cause : Option String

-- An update that the database refuses is logged, and the row stays as it was.
abbrev pub updated : Bool → CronLog → (CronLog → CronLog) → CronLog
updated refused l f = if refused then l else f l

abbrev pub set_cause : Bool → Phase → Option String → CronLog → CronLog
set_cause refused name none l = l
set_cause refused name (some e) l =
    updated refused l (set_phase name (λ p. record p { error = some e }))

unfoldable pub phase : Bool × (Bool × Bool) → Outcome → CronLog × Reporter → CronLog × Reporter
phase refused o run =
    let l1 =
      updated refused.0 run.0 (set_phase o.name (λ p. record p { status = some o.status })) in
    let l2 =
      updated refused.1.0 l1
        (set_phase o.name (λ p. record p { finished_at = some o.finished_at })) in
    (set_cause refused.1.1 o.name o.cause l2, record_phase o.name o.status run.1)

-- The phases of a run, in order, none of whose updates is refused.
unfoldable pub phases : List Outcome → CronLog × Reporter → CronLog × Reporter
unfolding phase
phases [] run = run
phases (o ∷ rest) run = phases rest (phase (false, (false, false)) o run)
