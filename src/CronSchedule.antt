-- ===== src/CronSchedule.antt =====
-- internal/daemon/cron_scheduler.go: what one tick of the scheduler asks the queue to run. Instants
-- are seconds since the epoch, so the UTC hour and minute are read off `now`; a probability and a
-- roll of the dice are percents. The daily sweep of downloaded archives and the log are left out.
pub mod Snapshot
pub mod Ticks
pub mod Idle
mod Tests
use oddk.Base.{
  ℕ, ◌-◌, ◌/◌, ◌%◌, Bool, true, false, not, ◌&&◌, ◌||◌, Option, none, some, List, [], ◌∷◌, ◌++◌,
  String, ltb, leb, ◌==◌, if◌then◌else◌,
}
use oddk.CronStore as Store
use oddk.CronStore.{CronPlan, get_plans_for_hour}
use oddk.CronLogs.{CronLog, has_run_since, has_run_in_last_hour}
use oddk.CronTracker.{Tracker, run_task}
use oddk.Snapshots.Plan
use oddk.Snapshots.Plan.{runs_at_hour}

-- The name under which the whole deployment's snapshot rides the queue; no instance can have it.
abbrev pub snapshot_cron_instance : String
snapshot_cron_instance = "*snapshot*"

abbrev pub hour_of : ℕ → ℕ
hour_of now = now / 3600 % 24

abbrev pub minute_of : ℕ → ℕ
minute_of now = now / 60 % 60

pub snapshot_slot_start : ℕ → ℕ
snapshot_slot_start now = now - now % 3600

pub snapshot_run_probability : ℕ → Bool → ℕ
snapshot_run_probability minute force =
    if force
    then 100
    else if leb 1 minute && leb minute 9
    then 5
    else if leb 10 minute && leb minute 20
    then 10
    else if ltb 30 minute
    then 100
    else 0

-- What a tick reads: the debug flag, the tables, which reads the database refuses, and the dice. Plans
-- stand in the order in which the query yields them.
-- A `none` is an error, and `some none` that there is no snapshot plan.
pub record Host : Type 0 where
  pub now : ℕ
  pub force : Bool
  pub snapshot_plan : Option (Option Plan.Plan)
  pub plans_refused : Bool
  pub plans : List CronPlan
  pub logs_refused : String → Bool
  pub logs : List CronLog
  pub roll : String → ℕ

-- The dice at the given minute: 0 is not rolled.
abbrev pub rolled : Host → String → Bool
rolled h name =
    let probability = snapshot_run_probability (minute_of h.now) h.force in
    if probability == 0 then false else ltb (h.roll name) probability

abbrev pub not_run : Option Bool → Bool
not_run none = false
not_run (some run) = not run

snapshot_due : Host → Plan.Plan → Bool
snapshot_due h p =
    if Plan.is_paused p
    then false
    else if not h.force && not (runs_at_hour p (hour_of h.now))
    then false
    else if not_run (
        has_run_since (h.logs_refused snapshot_cron_instance) snapshot_cron_instance
          (snapshot_slot_start h.now) h.logs)
    then rolled h snapshot_cron_instance
    else false

-- True if the snapshot is asked for.
pub check_snapshot_plan : Host → Bool
unfolding snapshot_due
check_snapshot_plan h = elim h.snapshot_plan [
  | none ↦ false
  | some plan ↦ elim plan [ none ↦ false | some p ↦ snapshot_due h p ]
]

pub plan_due : Host → CronPlan → Bool
plan_due h p =
    if Store.is_paused p
    then false
    else if not_run
        (has_run_in_last_hour (h.logs_refused p.instance_name) h.now p.instance_name h.logs)
    then rolled h p.instance_name
    else false

pub plan_requests : Host → List CronPlan → List String
unfolding plan_due
plan_requests h [] = []
plan_requests h (p ∷ rest) =
    let later = plan_requests h rest in if plan_due h p then p.instance_name ∷ later else later

-- The plans of the tick: all under the debug flag, otherwise those of the hour.
abbrev pub plans_of : Host → Option (List CronPlan)
plans_of h =
    if h.force
    then (if h.plans_refused then none else some h.plans)
    else get_plans_for_hour h.plans_refused (hour_of h.now) h.plans

-- What a tick asks for, in order. A failed read of the plans ends it before the snapshot plan.
pub requests_of : Host → Option (List CronPlan) → List String
unfolding check_snapshot_plan plan_requests
requests_of h none = []
requests_of h (some plans) =
    (if check_snapshot_plan h then snapshot_cron_instance ∷ [] else []) ++ plan_requests h plans

pub check_and_run_cron_tasks : Host → List String
unfolding requests_of
check_and_run_cron_tasks h = requests_of h (plans_of h)

-- The requests reach the queue in this order.
pub request_all : Tracker → List String → Tracker
request_all t [] = t
request_all t (name ∷ rest) = request_all (run_task t name).after rest
