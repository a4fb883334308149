-- ===== src/SnapshotApply/Tests.antt =====
-- An apply of a snapshot with two instances, one of them without data.
use oddk.Base.{
  ◌*◌, ◌+◌, ok, ◌≡◌, refl, true, false, Bool, none, some, List, [], ◌∷◌, String, arith, eq_iff,
  Distinct,
}
use oddk.Disk.{not_exist}
use oddk.Instances.{Instance, get, update_status, update_container_id}
use oddk.Instances.Rows.{IsKeyed}
use oddk.Instances.Status.{running, stopped, error}
use oddk.Snapshots.Plan
use oddk.Snapshots.Plan.{is_paused}
use oddk.Snapshots.Repoint as SnapshotRepoint
use oddk.Snapshots.Schedule.{set_plan, resume_plan, delete_plan, pause_plan, get_plan}
use oddk.Backups.Repoint as BackupRepoint
use oddk.CronStore.{CronPlan, fresh_plan, pause_all_plans}
use oddk.CronStore as Cron
use oddk.CronSchedule.{Host, check_and_run_cron_tasks}
use oddk.SnapshotMake.Members.{SnapshotInstanceEntry, entry_format}
use oddk.SnapshotApply.{
  Target, InstanceMeta, Tables, execute_snapshot_apply, count_active_restored_schedules,
  apply_instances, pause_restored_schedules, rebuild_instance_from_snapshot, mark_instance_unbuilt,
}
use oddk.SnapshotApply.Silent.{execute_snapshot_apply-silent}
use oddk.SnapshotApply.Loop.{Ended, KeepsOthers, apply_instances-settles}

abbrev target : Target
target = record {
  now = 100;
  daemon_listens = false;
  lock_held = false;
  install_fails = false;
  store_fails = false;
  backup_dir = "/b";
  disk = λ p. not_exist;
  backups_unreadable = false;
  backup_update_fails = λ k. false;
  snapshots_unreadable = false;
  snapshot_update_fails = λ k. false;
  plan_refused = false;
  cron_refused = false;
  refuses = λ s n. false;
  decrypts = λ p. true;
  has_group = λ g. true;
  has_logical_inputs = λ n. true;
  create_fails = λ n. false;
  container = λ n. "new";
  fill_fails = λ n. false;
  start_fails = λ n. false;
  ready_fails = λ n. false;
  count_fails = λ n. false;
  stop_fails = λ n. false;
  adopt_fails = λ n. false;
  restore_fails = λ n. false;
}

abbrev row : String → Instance
row name = record {
  name = name;
  port = 5432;
  version = "17";
  status = running;
  container_id = "source";
  password = "sealed";
  cpu_cores = 2;
  ram_mb = 1024;
  parameter_group = "default";
  image = "postgres:17";
  created_at = 5;
  updated_at = 5;
}

abbrev two : List Instance
two = row "app" ∷ row "web" ∷ []

two-IsKeyed : IsKeyed two
two-IsKeyed = ((ground (arith, eq_iff "app" "web"), tt), (tt, tt))

abbrev entry : String → Bool → SnapshotInstanceEntry
entry name has_data = record {
  name = name;
  version = "17";
  image = "postgres:17";
  has_data = has_data;
  format = "physical";
  capture_mode = "cold";
  skip_reason = none;
}

abbrev entries : List SnapshotInstanceEntry
entries = entry "app" true ∷ entry "web" false ∷ []

abbrev meta : String → InstanceMeta
meta name = record { name = name; parameter_group = "default"; has_definition = true }

abbrev metas : List InstanceMeta
metas = meta "app" ∷ meta "web" ∷ []

metas-Distinct : Distinct (λ (m : InstanceMeta). m.name) metas
metas-Distinct = ((ground (arith, eq_iff "app" "web"), tt), (tt, tt))

apply_instances-settles_example :
    Ended target entries metas two (apply_instances target entries metas two)
    × KeepsOthers target entries metas two (apply_instances target entries metas two).1
unfolding get
apply_instances-settles_example =
    apply_instances-settles target entries metas two two-IsKeyed metas-Distinct
      ((row "app", refl), ((row "web", refl), tt))

abbrev daily : Plan.Plan
daily = record { utc_hour = 3; interval_hours = 24; paused_at = none }

abbrev restored : Tables
restored = record {
  backups = [];
  snapshots = [];
  plan = some daily;
  cron_plans = fresh_plan 5 "app" 3 7 30 ∷ [];
  instances = two;
}

abbrev settled : List Instance
settled =
    record (row "app") { status = stopped; container_id = "new"; updated_at = 100 }
    ∷ record (row "web") { status = error; container_id = ""; updated_at = 100 }
    ∷ []

abbrev applied : Tables
applied = record restored {
  plan = some (record daily { paused_at = some 100 });
  cron_plans = Cron.paused 100 "drill" (fresh_plan 5 "app" 3 7 30) ∷ [];
  instances = settled;
}

apply_instances-two : apply_instances target entries metas two ≡ (none, settled)
unfolding apply_instances rebuild_instance_from_snapshot mark_instance_unbuilt get update_status
    update_container_id entry_format
apply_instances-two = refl

execute_snapshot_apply-two :
    execute_snapshot_apply target "drill" false entries metas restored ≡ (none, applied)
unfolding execute_snapshot_apply pause_restored_schedules BackupRepoint.reconcile_local_locations
    SnapshotRepoint.reconcile_local_locations pause_plan pause_all_plans
execute_snapshot_apply-two = rw apply_instances-two refl

abbrev tick : Host
tick = record {
  now = 3 * 3600 + 40 * 60;
  force = true;
  snapshot_plan = some applied.plan;
  plans_refused = false;
  plans = applied.cron_plans;
  logs_refused = λ n. false;
  logs = [];
  roll = λ n. 0;
}

execute_snapshot_apply-silent_example :
    (count_active_restored_schedules applied ≡ (false, 0)) × (check_and_run_cron_tasks tick ≡ [])
execute_snapshot_apply-silent_example =
    execute_snapshot_apply-silent target "drill" entries metas restored applied
      execute_snapshot_apply-two tick refl refl

-- A new hour does not resume a paused plan.
set_plan-paused :
    set_plan false 5 12 applied.plan
    ≡ ok (some (record daily { utc_hour = 5; interval_hours = 12; paused_at = some 100 }))
unfolding set_plan
set_plan-paused = refl

resume_plan-paused : resume_plan false applied.plan ≡ ok (some daily)
unfolding resume_plan
resume_plan-paused = refl

delete_plan-daily : delete_plan false (some daily) ≡ ok none
unfolding delete_plan
delete_plan-daily = refl

get_plan-daily : get_plan false (some daily) ≡ ok (some daily)
unfolding get_plan
get_plan-daily = refl
