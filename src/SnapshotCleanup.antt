-- ===== src/SnapshotCleanup.antt =====
-- internal/operations/snapshot_cron_task.go: `runLocalCleanup` and `removeLocalSnapshot`, which age
-- out the local snapshot archives. Log lines are left out.
pub mod LocalFloor
pub mod Pin
pub mod Justified
pub mod Rows
pub mod Whole
mod Tests
use oddk.Base.{
  ℕ, suc, Bool, true, false, not, ◌&&◌, Option, none, some, List, [], ◌∷◌, String, str_eq, ltb,
  if◌then◌else◌, Result, ok, err,
}
use oddk.Disk.{Disk, local_archive_present, remove_file}
use oddk.Retention.{
  RetentionFloor, RetentionVerdict, new_retention_floor, snapshot_retention_protects,
  snapshot_is_complete, is_kept, days_before, complete_pin_cutoff,
}
use oddk.Snapshots.{Record, StoreError, local_path, remote_path, list, delete, clear_local_location}

abbrev pub min_retained_snapshots : ℕ
min_retained_snapshots = 2

-- What the file system and the database refuse, by path and by row.
pub record Faults : Type 0 where
  pub remove_refused : String → Bool
  pub delete_fails : ℕ → Bool
  pub clear_fails : ℕ → Bool

-- The values that the loop reads and does not change.
pub record Limits : Type 0 where
  pub cutoff : ℕ
  pub pin_cutoff : ℕ
  pub offsite_configured : Bool
  pub faults : Faults

-- The loop's variables, the disk and the catalogue.
pub record Run : Type 0 where
  pub floor : RetentionFloor
  pub complete_kept : Bool
  pub deleted : ℕ
  pub reconciled : ℕ
  pub disk : Disk
  pub rows : List Record

pub data CleanupError : Type 0 where
  remove_failed : CleanupError
  store : StoreError → CleanupError

-- The catalogue's part of `removeLocalSnapshot`, after the file is gone.
pub forget_local : Faults → Record → List Record → Result StoreError (List Record)
forget_local faults rec rows =
    if str_eq (remote_path rec) ""
    then delete faults.delete_fails rows rec.id
    else clear_local_location faults.clear_fails rows rec.id

abbrev settle : Run → Result StoreError (List Record) → Option CleanupError × Run
settle run (ok rows) = (none, record run { rows = rows })
settle run (err e) = (some (store e), run)

-- The file is removed first: where the catalogue then fails, it stays removed.
pub remove_local_snapshot : Faults → Record → Run → Option CleanupError × Run
remove_local_snapshot faults rec run =
    let (gone, disk) = remove_file faults.remove_refused run.disk (local_path rec) in
    if gone
    then settle (record run { disk = disk }) (forget_local faults rec run.rows)
    else (some remove_failed, run)

abbrev count_removal : Bool → Option CleanupError × Run → Run
count_removal present (some e, run) = run
count_removal true (none, run) = record run { deleted = suc run.deleted }
count_removal false (none, run) = record run { reconciled = suc run.reconciled }

-- The body of the loop after the keep rule has answered.
pub age_out : Limits → Record → Bool → RetentionVerdict → Run → Run
age_out limits rec present verdict run =
    if is_kept verdict.keep
    then run
    else if not (ltb rec.created_at limits.cutoff)
    then run
    else if present && limits.offsite_configured && str_eq (remote_path rec) ""
    then run
    else count_removal present (remove_local_snapshot limits.faults rec run)

-- One turn of `for _, rec := range records`.
pub local_step : Limits → Record → Run → Run
local_step limits rec run =
    if str_eq (local_path rec) ""
    then run
    else (let present = local_archive_present run.disk "" (local_path rec) in
        let (verdict, floor, complete_kept) =
          snapshot_retention_protects run.floor run.complete_kept present
            (snapshot_is_complete rec.instances) (not (ltb rec.created_at limits.pin_cutoff)) in
        age_out limits rec present verdict
          (record run { floor = floor; complete_kept = complete_kept }))

pub local_loop : Limits → List Record → Run → Run
local_loop limits [] run = run
local_loop limits (rec ∷ rest) run = local_loop limits rest (local_step limits rec run)

-- `Offsite.GetActive`: an error, no settings, or settings.
pub data Offsite : Type 0 where
  unreadable not_configured configured : Offsite

-- An error reading the settings counts as configured.
pub offsite_assumed : Offsite → Bool
offsite_assumed not_configured = false
offsite_assumed _ = true

-- `Snapshot.GetPlan`: an error, no plan, or the plan's `cleanup_local_days`.
pub data PlanRead : Type 0 where
  plan_error no_plan : PlanRead
  cleanup_days : ℕ → PlanRead

abbrev pub start : Disk → List Record → Run
start disk rows = record {
  floor = new_retention_floor min_retained_snapshots;
  complete_kept = false;
  deleted = 0;
  reconciled = 0;
  disk = disk;
  rows = rows;
}

abbrev pub limits_at : ℕ → ℕ → Offsite → Faults → Limits
limits_at now days offsite faults = record {
  cutoff = days_before now days;
  pin_cutoff = complete_pin_cutoff now days;
  offsite_configured = offsite_assumed offsite;
  faults = faults;
}

abbrev after_listing : Limits → Run → Result StoreError (List Record) → Result StoreError Run
after_listing limits run (ok records) = ok (local_loop limits records run)
after_listing limits run (err e) = err e

pub run_local_cleanup :
    ℕ → PlanRead → Offsite → Bool → Faults → Disk → List Record → Result StoreError Run
run_local_cleanup now plan_error offsite list_fails faults disk rows = err StoreError.database
run_local_cleanup now no_plan offsite list_fails faults disk rows = ok (start disk rows)
run_local_cleanup now (cleanup_days days) offsite list_fails faults disk rows =
    after_listing (limits_at now days offsite faults) (start disk rows) (list list_fails rows)
