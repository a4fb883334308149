-- ===== src/SnapshotRemote.antt =====
-- internal/operations/snapshot_cron_task.go: `runRemoteCleanup`, which ages out the offsite snapshot
-- archives. Log lines are left out.
pub mod Turn
pub mod Apart
pub mod Whole
mod Tests
use oddk.Base.{
  ℕ, suc, Bool, true, false, not, ◌&&◌, ◌||◌, Option, none, some, List, [], ◌∷◌, String, str_eq,
  ltb, if◌then◌else◌, Result, ok, err,
}
use oddk.Bucket.{Objects, Remote, our_key, remote_archive_present, delete_file}
use oddk.Retention.{
  RetentionFloor, RetentionVerdict, new_retention_floor, full, snapshot_retention_protects,
  snapshot_is_complete, is_kept, days_before, complete_pin_cutoff,
}
use oddk.Snapshots.{
  Record, StoreError, local_path, remote_path, list, delete, clear_remote_location,
}
use oddk.SnapshotCleanup.{min_retained_snapshots, PlanRead, plan_error, no_plan, cleanup_days}

-- The values that the loop reads and does not change; the last two say for which ids the database
-- refuses to delete a row or to clear a location.
pub record Limits : Type 0 where
  pub cutoff : ℕ
  pub pin_cutoff : ℕ
  pub remote : Remote
  pub delete_fails : ℕ → Bool
  pub clear_fails : ℕ → Bool

-- The loop's variables, the bucket and the catalogue.
pub record Run : Type 0 where
  pub floor : RetentionFloor
  pub complete_kept : Bool
  pub deleted : ℕ
  pub objects : Objects
  pub rows : List Record

abbrev counted : Run → Result StoreError (List Record) → Run
counted run (ok rows) = record run { rows = rows; deleted = suc run.deleted }
counted run (err e) = run

-- The catalogue's part, after the object is gone.
pub forget_remote : Limits → Record → List Record → Result StoreError (List Record)
forget_remote limits rec rows =
    if str_eq (local_path rec) ""
    then delete limits.delete_fails rows rec.id
    else clear_remote_location limits.clear_fails rows rec.id

pub remove_remote : Limits → Record → String → Run → Run
unfolding forget_remote
remove_remote limits rec key run =
    let (gone, objects) = delete_file limits.remote key run.objects in
    if gone
    then counted (record run { objects = objects }) (forget_remote limits rec run.rows)
    else run

abbrev pub remove_if_ours : Limits → Record → Option String → Run → Run
remove_if_ours limits rec none run = run
remove_if_ours limits rec (some key) run = remove_remote limits rec key run

-- The body of the loop after the keep rule has answered.
pub age_out : Limits → Record → RetentionVerdict → Run → Run
unfolding remove_remote
age_out limits rec verdict run =
    if is_kept verdict.keep
    then run
    else if not (ltb rec.created_at limits.cutoff)
    then run
    else remove_if_ours limits rec (our_key limits.remote (remote_path rec)) run

-- HeadObject is asked only while its answer can matter.
abbrev pub headed : Limits → Record → Run → Bool
headed limits rec run =
    (not (full run.floor) || (not run.complete_kept && snapshot_is_complete rec.instances))
    && remote_archive_present limits.remote run.objects (remote_path rec)

-- One turn of `for _, rec := range records`.
unfoldable pub remote_step : Limits → Record → Run → Run
unfolding age_out
remote_step limits rec run =
    if str_eq (remote_path rec) ""
    then run
    else (let (verdict, floor, complete_kept) =
          snapshot_retention_protects run.floor run.complete_kept (headed limits rec run)
            (snapshot_is_complete rec.instances) (not (ltb rec.created_at limits.pin_cutoff)) in
        age_out limits rec verdict (record run { floor = floor; complete_kept = complete_kept }))

pub remote_loop : Limits → List Record → Run → Run
unfolding remote_step
remote_loop limits [] run = run
remote_loop limits (rec ∷ rest) run = remote_loop limits rest (remote_step limits rec run)

-- GetActiveOffsiteSettingsDecrypted and NewClient: an error, no settings, or a client.
pub data Client : Type 0 where
  settings_error no_settings client_error : Client
  client : Remote → Client

pub data CleanupError : Type 0 where
  offsite_settings s3_client : CleanupError
  store : StoreError → CleanupError

abbrev pub start : Objects → List Record → Run
start objects rows = record {
  floor = new_retention_floor min_retained_snapshots;
  complete_kept = false;
  deleted = 0;
  objects = objects;
  rows = rows;
}

abbrev pub limits_at : ℕ → ℕ → Remote → (ℕ → Bool) → (ℕ → Bool) → Limits
limits_at now days remote delete_fails clear_fails = record {
  cutoff = days_before now days;
  pin_cutoff = complete_pin_cutoff now days;
  remote = remote;
  delete_fails = delete_fails;
  clear_fails = clear_fails;
}

-- The settings are read before the plan, and the client is made after it.
pub run_remote_cleanup :
    ℕ
    → Client
    → PlanRead
    → Bool
    → (ℕ → Bool)
    → (ℕ → Bool)
    → Objects
    → List Record
    → Result CleanupError Run
unfolding remote_loop
run_remote_cleanup now settings_error plan list_fails df cf objects rows = err offsite_settings
run_remote_cleanup now no_settings plan list_fails df cf objects rows = ok (start objects rows)
run_remote_cleanup now c plan_error list_fails df cf objects rows = err (store StoreError.database)
run_remote_cleanup now c no_plan list_fails df cf objects rows = ok (start objects rows)
run_remote_cleanup now client_error (cleanup_days days) list_fails df cf objects rows =
    err s3_client
run_remote_cleanup now (client remote) (cleanup_days days) list_fails df cf objects rows =
    elim (list list_fails rows) [
      | err e ↦ err (store e)
      | ok records ↦ ok (remote_loop (limits_at now days remote df cf) records (start objects rows))
    ]
