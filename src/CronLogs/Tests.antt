-- ===== src/CronLogs/Tests.antt =====
-- Two runs that the daemon left open.
use oddk.Base.{refl, ℕ, ◌≡◌, false, some, List, [], ◌∷◌, String, count_of}
use oddk.CronLogs.{
  create_log, complete_log, update_log, get_latest_log_for_instance, cleanup_old_logs,
  has_run_in_last_hour, CronLog, fresh_log, mark_interrupted_runs, has_run_since,
}
use oddk.CronLogs.Startup.{is_open, mark_interrupted_runs-closed}

abbrev app : String
app = "app"

abbrev logs : List CronLog
logs = fresh_log 100 1 app ∷ fresh_log 200 2 "web" ∷ []

mark_interrupted_runs-closed_example :
    (after : List CronLog) × (mark_interrupted_runs false 300 app logs
      ≡ some (count_of (is_open app) logs, after))
    × (mark_interrupted_runs false 400 app after ≡ some (0, after))
    × ((other : String) (cutoff : ℕ)
        → has_run_since false other cutoff after ≡ has_run_since false other cutoff logs)
mark_interrupted_runs-closed_example = mark_interrupted_runs-closed 300 400 app logs

abbrev done : CronLog
done = record (fresh_log 200 2 "web") { completed_at = some 260 }

-- A third run is added, the second is completed and is the latest of its instance; of the two, the
-- clean-up of rows older than 100 s at 310 drops both; no run of `web` is in the last hour.
log_run :
    (create_log false 300 3 app logs
      ≡ some (
        fresh_log 300 3 app,
        fresh_log 100 1 app ∷ fresh_log 200 2 "web" ∷ fresh_log 300 3 app ∷ [],
      ))
    × (complete_log false 260 2 logs ≡ some (fresh_log 100 1 app ∷ done ∷ []))
    × (get_latest_log_for_instance false "web" (fresh_log 150 0 "web" ∷ done ∷ [])
        ≡ some (some done))
    × (cleanup_old_logs false 310 100 logs ≡ some (2, []))
    × (has_run_in_last_hour false 5000 "web" logs ≡ some false)
unfolding create_log complete_log update_log get_latest_log_for_instance cleanup_old_logs
    has_run_in_last_hour
log_run = (refl, refl, refl, refl, refl)
