-- ===== src/SnapshotApply/Silent.antt =====
-- A restored host asks for nothing until an operator resumes its schedules.
use oddk.Base.{
  ℕ, ◌≡◌, refl, sym, ap, ap₂, subst, Bool, true, false, not, Option, none, some, List, [], ◌∷◌,
  String, map, count_of, arith, All, if◌then◌else◌, Result, ok, err,
}
use oddk.Snapshots.Plan
use oddk.Snapshots.Plan.{is_paused}
use oddk.Snapshots.Schedule.{pause_plan, no_snapshot_plan}
use oddk.Snapshots.Schedule as Schedule
use oddk.Snapshots.{StoreError}
use oddk.Snapshots.Repoint as SnapshotRepoint
use oddk.Backups.{BackupError}
use oddk.Backups.Repoint as BackupRepoint
use oddk.CronStore.{CronPlan, paused, pause_all_plans, get_plans_for_hour}
use oddk.CronStore as Cron
use oddk.CronSchedule.{Host, check_and_run_cron_tasks}
use oddk.CronSchedule.Idle.{AllPaused, is_idle, check_and_run_cron_tasks-paused}
use oddk.SnapshotMake.Members.{SnapshotInstanceEntry}
use oddk.SnapshotApply.{
  Target, InstanceMeta, Tables, Applied, Paused, is_active, execute_snapshot_apply,
  pause_restored_schedules, count_active_restored_schedules, after_backups, after_snapshots,
  after_pause, pause_from, pause_crons,
}

abbrev IsSilent : Tables → Type 0
IsSilent db = (is_active db.plan ≡ false) × All (λ p. Cron.is_paused p ≡ true) db.cron_plans

All-paused :
    (now : ℕ) (reason : String) (plans : List CronPlan)
    → All (λ p. Cron.is_paused p ≡ true) (map (paused now reason) plans)
unfolding Cron.is_paused
All-paused now reason [] = tt
All-paused now reason (p ∷ plans) = (refl, All-paused now reason plans)

abbrev CronsPaused : Option (ℕ × List CronPlan) → Type 0
CronsPaused none = Unit
CronsPaused (some (n, plans)) = All (λ p. Cron.is_paused p ≡ true) plans

pause_all_plans-CronsPaused :
    (refused : Bool) (now : ℕ) (reason : String) (plans : List CronPlan)
    → CronsPaused (pause_all_plans refused now reason plans)
unfolding pause_all_plans
pause_all_plans-CronsPaused true now reason plans = tt
pause_all_plans-CronsPaused false now reason plans = All-paused now reason plans

pause_crons-IsSilent :
    (t : Target) (flag : Bool) (db : Tables) (o : Option (ℕ × List CronPlan))
    → is_active db.plan ≡ false
    → CronsPaused o
    → (pause_crons t flag db o).0 ≡ none
    → IsSilent (pause_crons t flag db o).3
pause_crons-IsSilent t flag db none idle c e = cc
pause_crons-IsSilent t flag db (some (n, plans)) idle c e = (idle, c)

-- What the statement about the snapshot's plan leaves.
abbrev PlanPaused : Option Plan.Plan → Result Schedule.ScheduleError (Option Plan.Plan) → Type 0
PlanPaused before (err Schedule.database) = Unit
PlanPaused before (err no_snapshot_plan) = is_active before ≡ false
PlanPaused before (ok plan) = is_active plan ≡ false

pause_plan-PlanPaused :
    (refused : Bool) (now : ℕ) (plan : Option Plan.Plan)
    → PlanPaused plan (pause_plan refused now plan)
unfolding pause_plan is_paused
pause_plan-PlanPaused true now plan = tt
pause_plan-PlanPaused false now none = refl
pause_plan-PlanPaused false now (some p) = refl

pause_from-IsSilent :
    (t : Target) (reason : String) (db : Tables)
    (r : Result Schedule.ScheduleError (Option Plan.Plan))
    → PlanPaused db.plan r
    → (pause_from t reason db r).0 ≡ none
    → IsSilent (pause_from t reason db r).3
pause_from-IsSilent t reason db (err Schedule.database) h e = cc
pause_from-IsSilent t reason db (err no_snapshot_plan) h e =
    pause_crons-IsSilent t false db _ h
      (pause_all_plans-CronsPaused t.cron_refused t.now reason db.cron_plans) e
pause_from-IsSilent t reason db (ok plan) h e =
    pause_crons-IsSilent t true (record db { plan = plan }) _ h
      (pause_all_plans-CronsPaused t.cron_refused t.now reason db.cron_plans) e

-- Without an error, the schedules are paused.
pause_restored_schedules-IsSilent :
    (t : Target) (reason : String) (db : Tables)
    → (pause_restored_schedules t reason false db).0 ≡ none
    → IsSilent (pause_restored_schedules t reason false db).3
unfolding pause_restored_schedules
pause_restored_schedules-IsSilent t reason db e =
    pause_from-IsSilent t reason db (pause_plan t.plan_refused t.now db.plan)
      (pause_plan-PlanPaused t.plan_refused t.now db.plan) e

if-IsSilent :
    (b : Bool) (x y : Applied)
    → (x.0 ≡ none → IsSilent x.1)
    → (y.0 ≡ none → IsSilent y.1)
    → (if b then x else y).0 ≡ none
    → IsSilent (if b then x else y).1
if-IsSilent true x y f g = f
if-IsSilent false x y f g = g

module _ (t : Target) (entries : List SnapshotInstanceEntry) (metas : List InstanceMeta) where
  after_pause-IsSilent :
      (out : Paused)
      → (out.0 ≡ none → IsSilent out.3)
      → (after_pause t false entries metas out).0 ≡ none
      → IsSilent (after_pause t false entries metas out).1
  after_pause-IsSilent (some x, _, _, db) h e = cc
  after_pause-IsSilent (none, _, _, db) h e = h refl

  module _ (reason : String) where
    after_snapshots-IsSilent :
        (db : Tables) (out : Option StoreError × SnapshotRepoint.Repair)
        → (after_snapshots t reason false entries metas db out).0 ≡ none
        → IsSilent (after_snapshots t reason false entries metas db out).1
    after_snapshots-IsSilent db (some x, run) e = cc
    after_snapshots-IsSilent db (none, run) e =
        let db' = record db { snapshots = run.rows } in
        after_pause-IsSilent (pause_restored_schedules t reason false db')
          (pause_restored_schedules-IsSilent t reason db') e

    after_backups-IsSilent :
        (db : Tables) (out : Option BackupError × BackupRepoint.Repair)
        → (after_backups t reason false entries metas db out).0 ≡ none
        → IsSilent (after_backups t reason false entries metas db out).1
    after_backups-IsSilent db (some x, run) e = cc
    after_backups-IsSilent db (none, run) e =
        after_snapshots-IsSilent (record db { backups = run.rows }) _ e

    execute-IsSilent :
        (db : Tables)
        → (execute_snapshot_apply t reason false entries metas db).0 ≡ none
        → IsSilent (execute_snapshot_apply t reason false entries metas db).1
    unfolding execute_snapshot_apply
    execute-IsSilent db e =
        if-IsSilent t.daemon_listens _ _ (λ x. cc)
          (if-IsSilent t.lock_held _ _ (λ x. cc)
            (if-IsSilent t.install_fails _ _ (λ x. cc)
              (if-IsSilent t.store_fails _ _ (λ x. cc) (after_backups-IsSilent db _))))
          e

count_of-paused :
    (plans : List CronPlan) → AllPaused plans → count_of (λ p. not (Cron.is_paused p)) plans ≡ 0
count_of-paused [] all = refl
count_of-paused (p ∷ plans) all = ground (arith, count_of-paused plans all.1)

active-is_idle : (plan : Option Plan.Plan) → is_active plan ≡ false → is_idle plan ≡ true
active-is_idle none e = refl
active-is_idle (some p) e = ground arith

module _ (t : Target) (reason : String) (entries : List SnapshotInstanceEntry)
    (metas : List InstanceMeta) (db after : Tables)
    (applied : execute_snapshot_apply t reason false entries metas db ≡ (none, after)) (h : Host)
    (plan_read : h.snapshot_plan ≡ some after.plan) (plans_read : h.plans ≡ after.cron_plans) where
  -- After an apply that pauses and ends without an error, no schedule of the restored tables is
  -- active, and a tick of the scheduler that reads them asks for nothing, also under the debug flag.
  pub execute_snapshot_apply-silent :
      (count_active_restored_schedules after ≡ (false, 0)) × (check_and_run_cron_tasks h ≡ [])
  unfolding count_active_restored_schedules
  execute_snapshot_apply-silent =
      let silent : IsSilent after =
        subst (λ (out : Applied). IsSilent out.1) applied
          (execute-IsSilent t entries metas reason db (ap (λ out. out.0) applied)) in
      (
        ap₂ (λ b n. (b, n)) silent.0 (count_of-paused after.cron_plans silent.1),
        check_and_run_cron_tasks-paused h after.plan plan_read (active-is_idle after.plan silent.0)
            (subst AllPaused (sym plans_read) silent.1),
      )
