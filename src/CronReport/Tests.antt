-- ===== src/CronReport/Tests.antt =====
-- A night on which the upload fails, and a run that the daemon did not survive.
use oddk.Base.{◌≡◌, ◌≢◌, refl, ap, Bool, true, false, not, none, some, [], ◌∷◌}
use mathlib.Core.Bool.{true≢false}
use oddk.CronLogs.{get_latest_log_for_instance, fresh_log}
use oddk.CronReport.{
  finish, failed, recovered, record_phase, note_archive, captured_nothing, captured_partially,
  capture_failed, new_cron_run_reporter, Phase, backup, backup_upload, Outcome, Reporter, phases,
  cron_log_failed, is_empty,
}
use oddk.CronReport.Recorded.{phases-cron_log_failed}

abbrev captured : Outcome
captured = record { name = backup; status = "ok"; finished_at = 110; cause = none }

abbrev not_uploaded : Outcome
not_uploaded = record {
  name = backup_upload;
  status = "fail";
  finished_at = 120;
  cause = some "timeout";
}

abbrev reporter : Reporter
reporter = record { previous_run_failed = false; archive_produced = false; failures = [] }

abbrev is_capture : Phase → Bool
is_capture backup = true
is_capture _ = false

backup-apart : backup ≢ backup_upload
backup-apart e = true≢false (ap is_capture e)

phases-cron_log_failed_example :
    let run = phases (captured ∷ not_uploaded ∷ []) (fresh_log 100 1 "app", reporter) in
    cron_log_failed (some run.0) ≡ not (is_empty run.1.failures)
phases-cron_log_failed_example =
    phases-cron_log_failed 100 1 "app" reporter captured (not_uploaded ∷ []) refl
      ((backup-apart, tt), (tt, tt))

abbrev night : Reporter
night = record_phase backup "ok" (record_phase backup_upload "fail" (note_archive reporter))

-- The failed upload is the one message of its night; the archive is there. The night after an
-- interrupted run whose row was never closed is a recovery.
night_told :
    (finish night ≡ some failed)
    × (captured_nothing night ≡ false)
    × (captured_partially night ≡ false)
    × (finish (new_cron_run_reporter false "app" (fresh_log 100 1 "app" ∷ [])) ≡ some recovered)
unfolding finish record_phase note_archive captured_nothing captured_partially capture_failed
    new_cron_run_reporter cron_log_failed get_latest_log_for_instance
night_told = (refl, refl, refl, refl)
