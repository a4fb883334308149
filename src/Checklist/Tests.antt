-- ===== src/Checklist/Tests.antt =====
-- An audit of two records, the newer one without a copy.
use oddk.Base.{ℕ, ◌*◌, ◌≡◌, ◌↔◌, refl, true, false, Option, none, some, List, [], ◌∷◌, String}
use oddk.Disk.{Disk, not_exist}
use oddk.Snapshots.{Record}
use oddk.Snapshots.Plan
use oddk.Checklist.{
  Summary, collect_snapshots, newest_restorable, snapshot_coverage, location_label, local_and_s3,
  covered, config_only, not_captured, no_snapshots,
}
use oddk.Checklist.Newest.{IsFresh, all_copies, collect_snapshots-stale}

abbrev disk : Disk
disk path = not_exist

abbrev record_at : ℕ → ℕ → Option String → Record
record_at id created_at remote = record {
  id = id;
  created_at = created_at;
  status = "completed";
  local_location = some "/b/1";
  remote_location = remote;
  instances =
      some
        (record { name = "app"; has_data = true } ∷ record { name = "web"; has_data = false } ∷ []);
}

abbrev old : Record
old = record_at 1 100 (some "s3://acme/1")

abbrev rows : List Record
rows = old ∷ record_at 2 200 none ∷ []

abbrev daily : Plan.Plan
daily = record { utc_hour = 3; interval_hours = 24; paused_at = none }

newest_restorable-copy : newest_restorable disk rows ≡ some old
unfolding newest_restorable
newest_restorable-copy = refl

snapshot_coverage-data : snapshot_coverage (some old) "app" 50 ≡ covered
unfolding snapshot_coverage
snapshot_coverage-data = refl

snapshot_coverage-empty : snapshot_coverage (some old) "web" 50 ≡ config_only
unfolding snapshot_coverage
snapshot_coverage-empty = refl

-- An instance that was created again under its name after the snapshot.
snapshot_coverage-younger : snapshot_coverage (some old) "app" 150 ≡ not_captured
unfolding snapshot_coverage
snapshot_coverage-younger = refl

snapshot_coverage-none : snapshot_coverage none "app" 150 ≡ no_snapshots
unfolding snapshot_coverage
snapshot_coverage-none = refl

location_label-both : location_label true true ≡ local_and_s3
unfolding location_label
location_label-both = refl

collect_snapshots-stale_example :
    (out : Summary × Option Record) × (collect_snapshots
        (3 * 86400)
        disk
        (some (some daily))
        (some [])
        false
        rows
      ≡ some out)
    × ((out.0.stale ≡ false) ↔ IsFresh disk (3 * 86400) daily rows)
    × (all_copies out.0.copies ≡ out.0.total)
collect_snapshots-stale_example = collect_snapshots-stale disk (3 * 86400) daily [] rows
