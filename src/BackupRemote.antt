-- ===== src/BackupRemote.antt =====
-- internal/operations/cron_task.go: `runRemoteCleanup`, which ages out the offsite copies of one
-- instance's backups. Log lines are left out.
pub mod Turn
pub mod Whole
mod Tests
use oddk.Base.{
  ℕ, suc, Bool, true, false, not, Option, none, some, List, [], ◌∷◌, String, str_eq, ltb,
  if◌then◌else◌, Result, ok, err,
}
use oddk.Bucket.{Objects, Remote, remote_archive_present, delete_file}
use oddk.Disk.{Disk}
use oddk.Retention.{RetentionFloor, new_retention_floor, full, protects, days_before}
use oddk.S3Location.{cut_prefix, cut_slash, relative_key, object_key}
use oddk.SnapshotRemote.{Client, settings_error, no_settings, client_error, client}
use oddk.Backups.{BackupRecord, Checked, BackupError, Host, Faults, list_backups}
use oddk.Backups.Copies.{remove_remote_copy}
use oddk.BackupCleanup.{min_retained_backups}

-- What the loop reads and does not change; the disk is what RemoveRemoteCopy stats.
pub record Limits : Type 0 where
  pub instance_name : String
  pub cutoff : ℕ
  pub remote : Remote
  pub host : Host
  pub disk : Disk
  pub faults : Faults

-- The loop's variables, the bucket and the catalogue.
pub record Run : Type 0 where
  pub floor : RetentionFloor
  pub remote_deleted : ℕ
  pub objects : Objects
  pub rows : List BackupRecord

abbrev cut_after_scheme : Option String → Option (String × String)
cut_after_scheme none = none
cut_after_scheme (some path) = cut_slash path

abbrev in_bucket : Remote → Option (String × String) → Option String
in_bucket remote none = none
in_bucket remote (some (bucket_name, full_key)) =
    if str_eq bucket_name remote.bucket
    then some (object_key remote.bucket_path (relative_key remote.bucket_path full_key))
    else none

-- The object that the deletion addresses: strings.CutPrefix, then strings.SplitN at the first slash,
-- with no test that the parts are not empty.
pub deleted_key : Remote → String → Option String
deleted_key remote location = in_bucket remote (cut_after_scheme (cut_prefix "s3://" location))

abbrev pub counted : Run → Result BackupError (List BackupRecord) → Run
counted run (ok rows) = record run { remote_deleted = suc run.remote_deleted; rows = rows }
counted run (err e) = run

-- The object goes before the catalogue forgets it.
pub delete_remote : Limits → BackupRecord → String → Run → Run
delete_remote limits b key run =
    let (gone, objects) = delete_file limits.remote key run.objects in
    if gone
    then counted (record run { objects = objects })
        (remove_remote_copy limits.faults limits.host limits.disk b.id limits.instance_name
          run.rows)
    else run

abbrev pub delete_if_ours : Limits → BackupRecord → Option String → Run → Run
delete_if_ours limits b none run = run
delete_if_ours limits b (some key) run = delete_remote limits b key run

pub age_out : Limits → BackupRecord → String → Bool → Run → Run
unfolding delete_remote deleted_key
age_out limits b location protected run =
    if protected
    then run
    else if not (ltb b.timestamp limits.cutoff)
    then run
    else delete_if_ours limits b (deleted_key limits.remote location) run

-- HeadObject is asked only while the floor has room.
abbrev pub protection : Limits → String → Run → Bool × RetentionFloor
protection limits location run =
    if full run.floor
    then (false, run.floor)
    else protects run.floor (remote_archive_present limits.remote run.objects location)

abbrev pub step_at : Limits → BackupRecord → Option String → Run → Run
step_at limits b none run = run
step_at limits b (some location) run =
    let (protected, floor) = protection limits location run in
    age_out limits b location protected (record run { floor = floor })

-- One turn of `for _, backup := range backups`.
unfoldable pub remote_step : Limits → Checked → Run → Run
unfolding age_out
remote_step limits c run = step_at limits c.backup c.backup.remote_location run

pub remote_loop : Limits → List Checked → Run → Run
unfolding remote_step
remote_loop limits [] run = run
remote_loop limits (c ∷ rest) run = remote_loop limits rest (remote_step limits c run)

pub data CleanupError : Type 0 where
  listing : BackupError → CleanupError
  s3_client : CleanupError

abbrev pub start : Objects → List BackupRecord → Run
start objects rows = record {
  floor = new_retention_floor min_retained_backups;
  remote_deleted = 0;
  objects = objects;
  rows = rows;
}

abbrev pub limits_at : String → ℕ → ℕ → Remote → Host → Disk → Faults → Limits
limits_at name now days remote host disk faults = record {
  instance_name = name;
  cutoff = days_before now days;
  remote = remote;
  host = host;
  disk = disk;
  faults = faults;
}

abbrev listed_run :
    Client
    → (Remote → Limits)
    → Objects
    → Result BackupError (List Checked × List BackupRecord)
    → Result CleanupError Run
listed_run c limits objects (err e) = err (listing e)
listed_run (client remote) limits objects (ok (backups, rows)) =
    ok (remote_loop (limits remote) backups (start objects rows))
listed_run _ limits objects (ok (backups, rows)) = err s3_client

-- Settings that cannot be read or are not there, and a plan that cannot be read (`none`), end the
-- cleanup without an error; the listing runs before the client is made. What a failed cleanup leaves
-- is left out.
pub run_remote_cleanup :
    String
    → ℕ
    → Client
    → Option ℕ
    → Bool
    → Host
    → Faults
    → Disk
    → Objects
    → List BackupRecord
    → Result CleanupError Run
unfolding remote_loop
run_remote_cleanup name now settings_error plan list_fails host faults disk objects rows =
    ok (start objects rows)
run_remote_cleanup name now no_settings plan list_fails host faults disk objects rows =
    ok (start objects rows)
run_remote_cleanup name now c none list_fails host faults disk objects rows =
    ok (start objects rows)
run_remote_cleanup name now c (some days) list_fails host faults disk objects rows =
    listed_run c (λ remote. limits_at name now days remote host disk faults) objects
      (list_backups list_fails faults host disk name rows)
