-- ===== src/SnapshotMake/Tests.antt =====
-- A snapshot of three instances: one that runs, one that is stopped, and one whose container is gone.
use oddk.Base.{
  ◌≡◌, ◌↔◌, refl, ◌⊎◌, true, false, none, some, List, [], ◌∷◌, String, str_eq, map, any, filter,
  arith, ok, err, eq_iff, Memᴰ, All, Distinct, if◌then◌else◌, Option,
}
use oddk.Disk.{not_exist}
use oddk.Instances.{Instance}
use oddk.Instances.Rows.{IsKeyed}
use oddk.Instances.Status.{InstanceStatus, running, stopped, broken_port}
use oddk.Snapshots.{Record}
use oddk.Checklist.{snapshot_coverage, covered, config_only}
use oddk.SnapshotMake.Members.{
  Member, SnapshotInstanceEntry, SkipReason, Stage, entry_format, payload_passes,
  assert_snapshot_members,
}
use oddk.SnapshotMake.{
  World, AllStaged, MakeError, Deployment, decide_capture, stage_instance, stage_from,
  stage_all_instances, normalize_snapshot_format, archive_staged, make_snapshot,
  capture_failure_error, result_of, recorded, take_by, cold, skip,
}
use oddk.SnapshotMake.Capture.{captured, reported_gap, aborts, stage_all_instances-captured}
use oddk.SnapshotMake.Archive.{StartsWithManifest, Holds, HoldsEntry, assert_snapshot_members_iff}
use oddk.SnapshotMake.Covered.{Reads, make_snapshot-covers}

abbrev row : String → InstanceStatus → String → Instance
row name status container = record {
  name = name;
  port = 5432;
  version = "17";
  status = status;
  container_id = container;
  password = "sealed";
  cpu_cores = 2;
  ram_mb = 1024;
  parameter_group = "default";
  image = "postgres:17";
  created_at = 5;
  updated_at = 5;
}

-- The stored status of the first is out of date.
abbrev app : Instance
app = row "app" broken_port "c1"

abbrev three : List Instance
three = app ∷ row "web" stopped "c2" ∷ row "old" running "c3" ∷ []

three-IsKeyed : IsKeyed three
three-IsKeyed = (
  (ground (arith, eq_iff "app" "web"), (ground (arith, eq_iff "app" "old"), tt)),
  ((ground (arith, eq_iff "web" "old"), tt), (tt, tt)),
)

abbrev state : String → Option String
state container_id =
    if str_eq container_id "c1"
    then some "running"
    else if str_eq container_id "c2"
    then some "stopped"
    else some "not found"

abbrev file : String → Member
file name = record { name = name; size = 10; is_dir = false }

abbrev members : List Member
members =
    file "manifest.json"
    ∷ file "oddk.db"
    ∷ file "instances/app/instance.json"
    ∷ file "instances/app/basebackup/base.tar.zst"
    ∷ file "instances/web/instance.json"
    ∷ file "instances/web/basebackup/base.tar.zst"
    ∷ file "instances/old/instance.json"
    ∷ []

abbrev world : World
world = record {
  now = 100;
  container_status = state;
  mkdir_fails = λ n. false;
  metadata_fails = λ n. false;
  decrypts = λ p. true;
  base_backup_fails = λ n. false;
  cold_copy_fails = λ n. false;
  dump_fails = λ n. false;
  backup_dir_missing = false;
  archive_path = "/b/snapshot-1.tar.zst";
  staging_refused = false;
  vacuum_fails = false;
  migrations_fail = false;
  manifest_fails = false;
  written = λ entries. some members;
  record_refused = false;
  next_id = 7;
}

abbrev before : Deployment
before = record { catalogue = []; disk = λ path. not_exist }

decide_capture-cold : decide_capture "physical" "c" (some "stopped") ≡ take_by cold
unfolding decide_capture
decide_capture-cold = refl

decide_capture-logical :
    decide_capture "logical" "c" (some "stopped") ≡ skip SkipReason.needs_live false
unfolding decide_capture
decide_capture-logical = refl

normalize_snapshot_format-empty : normalize_snapshot_format "" ≡ some "physical"
unfolding normalize_snapshot_format
normalize_snapshot_format-empty = refl

stage_all_instances-captured_example :
    ((any (aborts world "physical") three ≡ false)
      × ((all : AllStaged) × (stage_all_instances world "physical" (some three) ≡ ok all)
          × (map (λ e. e.name) all.0 ≡ map (λ i. i.name) three)
          × (map (λ e. e.has_data) all.0 ≡ map (captured world "physical") three)
          × (map (λ f. f.instance_name) all.1
              ≡ map (λ i. i.name) (filter (reported_gap world "physical") three))))
    ⊎ ((any (aborts world "physical") three ≡ true)
        × ((e : MakeError) × (stage_all_instances world "physical" (some three) ≡ err e)))
stage_all_instances-captured_example = stage_all_instances-captured world "physical" three

abbrev gap : String → SkipReason → SnapshotInstanceEntry
gap name reason = record {
  name = name;
  version = "17";
  image = "postgres:17";
  has_data = false;
  format = "physical";
  capture_mode = "";
  skip_reason = some reason;
}

abbrev held : String → String → SnapshotInstanceEntry
held name mode = record (gap name SkipReason.needs_live) {
  has_data = true;
  capture_mode = mode;
  skip_reason = none;
}

abbrev entries : List SnapshotInstanceEntry
entries = held "app" "basebackup" ∷ held "web" "cold" ∷ gap "old" SkipReason.container_gone ∷ []

abbrev one_app : List Member
one_app = file "manifest.json" ∷ file "oddk.db" ∷ file "instances/app/instance.json" ∷ []

one_app-Distinct : Distinct (λ (m : Member). m.name) one_app
one_app-Distinct = (
  (
    ground (arith, eq_iff "manifest.json" "oddk.db"),
    (ground (arith, eq_iff "manifest.json" "instances/app/instance.json"), tt),
  ),
  ((ground (arith, eq_iff "oddk.db" "instances/app/instance.json"), tt), (tt, tt)),
)

-- An archive in which the data of the entry is missing.
assert_snapshot_members_iff_example :
    (assert_snapshot_members one_app (held "app" "cold" ∷ []) ≡ true) ↔ (
      StartsWithManifest one_app
      × Holds one_app "oddk.db"
      × All (HoldsEntry one_app) (held "app" "cold" ∷ []))
assert_snapshot_members_iff_example =
    assert_snapshot_members_iff one_app (held "app" "cold" ∷ []) one_app-Distinct

abbrev staged : AllStaged
staged = (entries, record { instance_name = "old"; stage = Stage.capture } ∷ [])

stage_all_instances-three : stage_all_instances world "physical" (some three) ≡ ok staged
unfolding stage_all_instances stage_from stage_instance decide_capture
stage_all_instances-three = refl

assert_snapshot_members-three : assert_snapshot_members members entries ≡ true
unfolding assert_snapshot_members payload_passes entry_format
assert_snapshot_members-three = refl

make_snapshot-three :
    make_snapshot world "" (some three) before
    ≡ ok (result_of world "physical" staged, recorded world entries before)
unfolding make_snapshot normalize_snapshot_format archive_staged
make_snapshot-three = rw (stage_all_instances-three, assert_snapshot_members-three) refl

capture_failure_error-three : capture_failure_error (result_of world "physical" staged) ≡ true
unfolding capture_failure_error
capture_failure_error-three = refl

make_snapshot-covers_example :
    (fmt : String) × (newest : Record) × Reads world "" three
      (recorded world entries before)
      (result_of world "physical" staged)
      fmt
      newest
    × (snapshot_coverage (some newest) "app" 5
        ≡ (if captured world fmt app then covered else config_only))
make_snapshot-covers_example =
    make_snapshot-covers world "" three before (recorded world entries before)
      (result_of world "physical" staged) three-IsKeyed refl refl tt make_snapshot-three app
      (Memᴰ.head refl) (omega arith)
