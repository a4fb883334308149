-- ===== src/SnapshotApply.antt =====
-- internal/operations/snapshot_apply.go: ExecuteSnapshotApply from its first check to its last instance.
-- What the file system and the database answer is in the Target of the rebuilding. The progress lines
-- are left out.
pub mod Rebuild
pub mod Silent
pub mod Settled
pub mod Loop
mod Tests
unfoldable pub use Rebuild.*
use oddk.Base.{
  ℕ, Bool, true, false, not, ◌&&◌, ◌||◌, Option, none, some, List, [], ◌∷◌, ◌++◌, String, str_eq,
  map, count_of, if◌then◌else◌, Result, ok, err,
}
use oddk.Disk.{Disk}
use oddk.Instances.{Instance, InstanceError, marked, get, update_status, update_container_id}
use oddk.Instances.Status.{InstanceStatus, running, stopped, error, restoring}
use oddk.Backups.{BackupRecord, BackupError}
use oddk.Backups.Repoint as BackupRepoint
use oddk.Snapshots.{Record, StoreError}
use oddk.Snapshots.Repoint as SnapshotRepoint
use oddk.Snapshots.Plan
use oddk.Snapshots.Plan.{is_paused}
use oddk.Snapshots.Schedule.{ScheduleError, no_snapshot_plan, pause_plan, get_plan}
use oddk.Snapshots.Schedule as Schedule
use oddk.CronStore.{CronPlan, pause_all_plans}
use oddk.CronStore as Cron
use oddk.SnapshotMake.Members.{SnapshotInstanceEntry, entry_format, snapshot_format_physical}

-- The tables of the restored store.
pub record Tables : Type 0 where
  pub backups : List BackupRecord
  pub snapshots : List Record
  pub plan : Option Plan.Plan
  pub cron_plans : List CronPlan
  pub instances : List Instance

abbrev pub Paused : Type 0
Paused = Option ApplyError × Bool × ℕ × Tables

abbrev pub pause_crons : Target → Bool → Tables → Option (ℕ × List CronPlan) → Paused
pause_crons t snapshot_paused db none = (some schedules, snapshot_paused, 0, db)
pause_crons t snapshot_paused db (some (n, plans)) =
    (none, snapshot_paused, n, record db { cron_plans = plans })

abbrev pub then_pause_crons : Target → String → Bool → Tables → Paused
then_pause_crons t reason snapshot_paused db =
    pause_crons t snapshot_paused db (pause_all_plans t.cron_refused t.now reason db.cron_plans)

abbrev pub pause_from : Target → String → Tables → Result ScheduleError (Option Plan.Plan) → Paused
pause_from t reason db (err Schedule.database) = (some schedules, false, 0, db)
pause_from t reason db (err no_snapshot_plan) = then_pause_crons t reason false db
pause_from t reason db (ok plan) = then_pause_crons t reason true (record db { plan = plan })

-- The error, whether the snapshot's plan was paused, how many schedules were, and the tables.
unfoldable pub pause_restored_schedules : Target → String → Bool → Tables → Paused
pause_restored_schedules t reason no_pause db =
    if no_pause
    then (none, false, 0, db)
    else pause_from t reason db (pause_plan t.plan_refused t.now db.plan)

abbrev pub is_active : Option Plan.Plan → Bool
is_active none = false
is_active (some p) = not (is_paused p)

-- For reads that succeed.
unfoldable pub count_active_restored_schedules : Tables → Bool × ℕ
count_active_restored_schedules db =
    (is_active db.plan, count_of (λ p. not (Cron.is_paused p)) db.cron_plans)

abbrev pub Applied : Type 0
Applied = Option ApplyError × Tables

abbrev pub with_instances : Tables → Outcome → Applied
with_instances db (e, rows) = (e, record db { instances = rows })

-- A plan or a schedule that stays as it is has to be read for the count of the active ones.
abbrev pub after_pause :
    Target → Bool → List SnapshotInstanceEntry → List InstanceMeta → Paused → Applied
after_pause t no_pause entries metas (some e, _, _, db) = (some e, db)
after_pause t no_pause entries metas (none, _, _, db) =
    if no_pause && (t.plan_refused || t.cron_refused)
    then (some schedules, db)
    else with_instances db (apply_instances t entries metas db.instances)

abbrev pub after_snapshots :
    Target
    → String
    → Bool
    → List SnapshotInstanceEntry
    → List InstanceMeta
    → Tables
    → Option StoreError × SnapshotRepoint.Repair
    → Applied
after_snapshots t reason no_pause entries metas db (some e, run) =
    (some snapshot_history, record db { snapshots = run.rows })
after_snapshots t reason no_pause entries metas db (none, run) =
    after_pause t no_pause entries metas
      (pause_restored_schedules t reason no_pause (record db { snapshots = run.rows }))

abbrev pub after_backups :
    Target
    → String
    → Bool
    → List SnapshotInstanceEntry
    → List InstanceMeta
    → Tables
    → Option BackupError × BackupRepoint.Repair
    → Applied
after_backups t reason no_pause entries metas db (some e, run) =
    (some backup_history, record db { backups = run.rows })
after_backups t reason no_pause entries metas db (none, run) =
    after_snapshots t reason no_pause entries metas (record db { backups = run.rows })
      (SnapshotRepoint.reconcile_local_locations t.snapshots_unreadable t.snapshot_update_fails
        t.backup_dir t.disk db.snapshots)

-- The error and the tables of the store that was installed, from the manifest's entries and the
-- instances of the plan.
unfoldable pub execute_snapshot_apply :
    Target → String → Bool → List SnapshotInstanceEntry → List InstanceMeta → Tables → Applied
execute_snapshot_apply t reason no_pause entries metas db =
    if t.daemon_listens
    then (some daemon_running, db)
    else if t.lock_held
    then (some data_dir_locked, db)
    else if t.install_fails
    then (some install, db)
    else if t.store_fails
    then (some open_store, db)
    else after_backups t reason no_pause entries metas db (
        BackupRepoint.reconcile_local_locations t.backups_unreadable t.backup_update_fails
          t.backup_dir t.disk db.backups)
