-- ===== src/CronSchedule/Tests.antt =====
-- A daily snapshot at 03:00 UTC, ticked at 03:45 and at 03:50 of the first day, and the backup of
-- one instance at the same hour.
use oddk.Base.{
  ◌*◌, ◌+◌, ◌/◌, ◌%◌, ◌≤◌, ◌↔◌, ◌⊎◌, All, ◌≡◌, ◌≢◌, refl, true, false, none, some, [], ◌∷◌, String,
  arith, Memᴰ,
}
use oddk.CronStore.{CronPlan, fresh_plan, get_plans_for_hour}
use oddk.CronLogs.{CronLog, fresh_log, has_run_since}
use oddk.CronTracker.{Tracker}
use oddk.Snapshots.Plan
use oddk.Snapshots.Plan.{runs_at_hour, is_paused}
use oddk.CronSchedule.{
  Host, check_snapshot_plan, check_and_run_cron_tasks, request_all, snapshot_cron_instance,
  plan_due, snapshot_run_probability, snapshot_due, snapshot_slot_start,
}
use oddk.CronSchedule.Snapshot.{check_snapshot_plan-hour, check_snapshot_plan-once}
use oddk.CronSchedule.Ticks.{Waits, check_and_run_cron_tasks-Waits}

abbrev daily : Plan.Plan
daily = record { utc_hour = 3; interval_hours = 24; paused_at = none }

abbrev app_plan : CronPlan
app_plan = fresh_plan 0 "app" 3 7 14

abbrev host : Host
host = record {
  now = 3 * 3600 + 45 * 60;
  force = false;
  snapshot_plan = some (some daily);
  plans_refused = false;
  plans = app_plan ∷ [];
  logs_refused = λ name. false;
  logs = fresh_log (2 * 3600 + 50 * 60) 0 snapshot_cron_instance ∷ [];
  roll = λ name. 99;
}

abbrev on_hold : Plan.Plan
on_hold = record daily { paused_at = some 7 }

abbrev forced : Host
forced = record host { force = true; snapshot_plan = some (some on_hold) }

check_snapshot_plan-hour_example : (check_snapshot_plan host ≡ true) ↔ (
    (is_paused daily ≡ false)
    × ((host.force ≡ true) ⊎ (runs_at_hour daily (host.now / 3600 % 24) ≡ true))
    × All
        (λ (l : CronLog).
          l.instance_name ≡ snapshot_cron_instance → l.started_at ≤ host.now / 3600 * 3600)
        host.logs)
check_snapshot_plan-hour_example =
    check_snapshot_plan-hour host daily refl refl (omega arith) (omega arith)

abbrev later : Host
later = record host {
  now = 3 * 3600 + 50 * 60;
  force = true;
  logs = fresh_log (3 * 3600 + 45 * 60 + 2) 1 snapshot_cron_instance ∷ [];
}

host_asks : check_snapshot_plan host ≡ true
unfolding check_snapshot_plan snapshot_due snapshot_run_probability is_paused has_run_since
    runs_at_hour snapshot_slot_start
host_asks = refl

check_snapshot_plan-once_example : check_snapshot_plan later ≡ false
check_snapshot_plan-once_example =
    check_snapshot_plan-once host later
      (fresh_log (3 * 3600 + 45 * 60 + 2) 1 snapshot_cron_instance) refl host_asks refl
      (omega arith) (Memᴰ.head refl) refl

abbrev busy : Tracker
busy = record { current_task = "reports"; pending_tasks = [] }

check_and_run_cron_tasks-Waits_example :
    let after = request_all busy (check_and_run_cron_tasks host) in
    (check_snapshot_plan host ≡ true → Waits after snapshot_cron_instance)
    × ((p : CronPlan)
        → p.instance_name ≢ ""
        → Memᴰ p (app_plan ∷ [])
        → plan_due host p ≡ true
        → Waits after p.instance_name)
    × ((name : String) → name ≢ "" → Waits busy name → Waits after name)
unfolding get_plans_for_hour
check_and_run_cron_tasks-Waits_example =
    check_and_run_cron_tasks-Waits host busy (app_plan ∷ []) refl
