-- ===== src/BackupCleanup.antt =====
-- internal/operations/cron_task.go: `runLocalCleanup` and `runRemoteCleanup`, which age out the
-- copies of one instance's backups. Log lines are left out.
pub mod Local
pub mod LocalFloor
pub mod LocalLoop
pub mod Justified
pub mod LocalWhole
mod Tests
use oddk.Base.{
  ℕ, suc, Bool, true, false, not, ◌&&◌, Option, none, some, List, [], ◌∷◌, String, str_eq, ltb,
  if◌then◌else◌, Result, ok, err,
}
use oddk.Bucket.{Objects, Remote, our_key, remote_archive_present, delete_file}
use oddk.Disk.{Disk, local_archive_present}
use oddk.Retention.{RetentionFloor, new_retention_floor, full, protects, days_before}
use oddk.SnapshotCleanup.{Offsite, offsite_assumed}
use oddk.Backups.{BackupRecord, Checked, BackupError, Host, Faults, valid, list_backups}
use oddk.Backups.Copies.{remove_local_copy, remove_remote_copy}

abbrev pub min_retained_backups : ℕ
min_retained_backups = 2

-- What the loops read and do not change; the last field says for which paths the system refuses the
-- removal.
pub record Limits : Type 0 where
  pub instance_name : String
  pub cutoff : ℕ
  pub offsite_configured : Bool
  pub host : Host
  pub faults : Faults
  pub remove_refused : String → Bool

-- The variables of the local loop, the disk and the catalogue.
pub record Run : Type 0 where
  pub floor : RetentionFloor
  pub local_deleted : ℕ
  pub disk : Disk
  pub rows : List BackupRecord

-- Without the file or with the row refused, the disk is still as the removal left it.
abbrev pub counted : Run → Result BackupError (List BackupRecord) × Disk → Run
counted run (ok rows, disk) = record run {
  local_deleted = suc run.local_deleted;
  disk = disk;
  rows = rows;
}
counted run (err e, disk) = record run { disk = disk }

pub remove_aged : Limits → BackupRecord → Run → Run
remove_aged limits b run = counted run (
    remove_local_copy limits.remove_refused limits.faults limits.host b.id limits.instance_name
      run.disk run.rows)

-- The body of the loop after the floor has answered.
pub age_out : Limits → BackupRecord → Bool → Bool → Run → Run
unfolding remove_aged
age_out limits b present protected run =
    if protected
    then run
    else if not (ltb b.timestamp limits.cutoff)
    then run
    else if present && limits.offsite_configured && not (valid b.remote_location)
    then run
    else remove_aged limits b run

abbrev pub step_at : Limits → BackupRecord → Option String → Run → Run
step_at limits b none run = run
step_at limits b (some location) run =
    let present = local_archive_present run.disk limits.host.data_dir location in
    let (protected, floor) = protects run.floor present in
    age_out limits b present protected (record run { floor = floor })

-- One turn of `for _, backup := range backups`.
pub local_step : Limits → Checked → Run → Run
unfolding age_out
local_step limits c run = step_at limits c.backup c.backup.local_location run

pub local_loop : Limits → List Checked → Run → Run
unfolding local_step
local_loop limits [] run = run
local_loop limits (c ∷ rest) run = local_loop limits rest (local_step limits c run)

abbrev pub start : Disk → List BackupRecord → Run
start disk rows = record {
  floor = new_retention_floor min_retained_backups;
  local_deleted = 0;
  disk = disk;
  rows = rows;
}

abbrev pub limits_at : String → ℕ → ℕ → Offsite → Host → Faults → (String → Bool) → Limits
limits_at name now days offsite host faults refused = record {
  instance_name = name;
  cutoff = days_before now days;
  offsite_configured = offsite_assumed offsite;
  host = host;
  faults = faults;
  remove_refused = refused;
}

abbrev after_listing :
    Limits → Disk → Result BackupError (List Checked × List BackupRecord) → Result BackupError Run
after_listing limits disk (err e) = err e
after_listing limits disk (ok (backups, rows)) = ok (local_loop limits backups (start disk rows))

-- A plan that cannot be read (`none`) ends the cleanup without an error; else it gives its
-- `cleanup_local_days`.
unfoldable pub run_local_cleanup :
    String
    → ℕ
    → Option ℕ
    → Bool
    → Offsite
    → Host
    → Faults
    → (String → Bool)
    → Disk
    → List BackupRecord
    → Result BackupError Run
unfolding local_loop
run_local_cleanup name now none list_fails offsite host faults refused disk rows =
    ok (start disk rows)
run_local_cleanup name now (some days) list_fails offsite host faults refused disk rows =
    after_listing (limits_at name now days offsite host faults refused) disk
      (list_backups list_fails faults host disk name rows)
