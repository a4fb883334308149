-- ===== src/SnapshotMake.antt =====
-- internal/operations/snapshot_make.go: MakeSnapshot, on top of the staging of the instances. What the
-- file system and the archiver answer is in the World of the staging.
pub mod Members
pub mod Staging
pub mod Capture
pub mod Archive
pub mod Covered
mod Tests
unfoldable pub use Staging.*
use oddk.Base.{
  ℕ, ◌-◌, Bool, true, false, not, ◌&&◌, Option, none, some, List, [], ◌∷◌, ◌++◌, String, str_eq,
  map, length, count_of, if◌then◌else◌, Result, ok, err, ◌>>=◌,
}
use oddk.Disk.{Disk, found, not_exist, Stat, set_stat}
use oddk.Instances.{Instance}
use oddk.Retention.{RecordInstance}
use oddk.Snapshots.{Record}
use oddk.SnapshotMake.Members.{
  Member, SnapshotInstanceEntry, SkipReason, Stage, assert_snapshot_members,
  snapshot_format_physical, snapshot_format_logical,
}

pub record MakeSnapshotResult : Type 0 where
  pub id : ℕ
  pub path : String
  pub timestamp : ℕ
  pub format : String
  pub instances : List SnapshotInstanceEntry
  pub instances_with_data : ℕ
  pub config_only : ℕ
  pub capture_failures : List SnapshotCaptureFailure

-- `err != nil`
unfoldable pub capture_failure_error : MakeSnapshotResult → Bool
capture_failure_error r = elim r.capture_failures [ [] ↦ false | f ∷ fs ↦ true ]

abbrev pub recorded_instances : List SnapshotInstanceEntry → List RecordInstance
recorded_instances entries = map (λ e. record { name = e.name; has_data = e.has_data }) entries

-- The row that RecordSnapshot inserts, under the next id.
abbrev pub snapshot_row : World → List SnapshotInstanceEntry → Record
snapshot_row w entries = record {
  id = w.next_id;
  created_at = w.now;
  status = "completed";
  local_location = if str_eq w.archive_path "" then none else some w.archive_path;
  remote_location = none;
  instances = some (recorded_instances entries);
}

-- What a snapshot leaves: the catalogue and the disk. A row that cannot be recorded is logged only,
-- and its id stays 0.
pub record Deployment : Type 0 where
  pub catalogue : List Record
  pub disk : Disk

abbrev pub recorded : World → List SnapshotInstanceEntry → Deployment → Deployment
recorded w entries d = record {
  catalogue = if w.record_refused then d.catalogue else d.catalogue ++ snapshot_row w entries ∷ [];
  disk = set_stat d.disk w.archive_path found;
}

abbrev pub result_of : World → String → AllStaged → MakeSnapshotResult
result_of w format all = record {
  id = if w.record_refused then 0 else w.next_id;
  path = w.archive_path;
  timestamp = w.now;
  format = format;
  instances = all.0;
  instances_with_data = count_of (λ e. e.has_data) all.0;
  config_only = length all.0 - count_of (λ e. e.has_data) all.0;
  capture_failures = all.1;
}

-- CreateTarZstdOrdered with its check: the archive is published only if the read-back passes.
abbrev pub published : Option (List Member) → List SnapshotInstanceEntry → Bool
published none entries = false
published (some members) entries = assert_snapshot_members members entries

-- From the staged instances on.
unfoldable pub archive_staged :
    World → String → Deployment → AllStaged → Result MakeError (MakeSnapshotResult × Deployment)
archive_staged w format d all =
    if w.vacuum_fails
    then err store_copy
    else if w.migrations_fail
    then err migrations
    else if w.manifest_fails
    then err manifest
    else if not (published (w.written all.0) all.0)
    then err archive
    else ok (result_of w format all, recorded w all.0 d)

abbrev pub is_found : Stat → Bool
is_found found = true
is_found _ = false

abbrev pub make_in :
    World
    → Option (List Instance)
    → Deployment
    → Option String
    → Result MakeError (MakeSnapshotResult × Deployment)
make_in w rows d none = err unknown_format
make_in w rows d (some format) =
    if is_found (d.disk w.archive_path)
    then err already_exists
    else if w.staging_refused
    then err staging
    else (stage_all_instances w format rows >>= archive_staged w format d)

-- An error leaves catalogue and disk as they were.
unfoldable pub make_snapshot :
    World
    → String
    → Option (List Instance)
    → Deployment
    → Result MakeError (MakeSnapshotResult × Deployment)
unfolding normalize_snapshot_format
make_snapshot w format rows d =
    if w.backup_dir_missing
    then err no_backup_dir
    else make_in w rows d (normalize_snapshot_format format)
