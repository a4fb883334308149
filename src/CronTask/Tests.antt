-- ===== src/CronTask/Tests.antt =====
-- A night whose upload fails, after one that was fine; the status of the upload is refused.
use oddk.Base.{◌≡◌, ◌||◌, not, if◌then◌else◌, false, none, some, [], ok}
use oddk.CronLogs.{CronLog}
use oddk.CronTask.Columns.{same_phase}
use oddk.CronReport.{backup_upload, cron_log_failed, new_cron_run_reporter}
use oddk.CronTask.{Answers, execute_task}
use oddk.CronTask.Told.{any_error, recorded_error, any_recorded, message_for, execute_task-told}

abbrev night : Answers
night = record {
  run_backup = ok 12;
  run_upload = some "timeout";
  run_local_cleanup = none;
  run_remote_cleanup = none;
  clock = λ p. 150;
  completed = 160;
  update_refused = λ p. (same_phase p backup_upload, (false, false));
  complete_refused = false;
}

execute_task-told_example :
    (row : CronLog) × (execute_task false false 100 7 "app" [] night
      ≡ some (
        row,
        message_for (any_error night) (new_cron_run_reporter false "app" []).previous_run_failed,
      ))
    × (row.completed_at ≡ (if night.complete_refused then none else some 160))
    × (cron_log_failed (some row) ≡ (recorded_error night || not (any_recorded night)))
execute_task-told_example = execute_task-told false 100 7 "app" [] night
