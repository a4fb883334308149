-- ===== src/SnapshotCleanup/Tests.antt =====
-- A pass over three archives, two of them degraded and all past a window of seven days.
use oddk.Base.{
  ℕ, ◌*◌, ◌≤◌, ◌<◌, min, ◌≡◌, ◌≢◌, refl, ◌⊎◌, Bool, true, false, none, some, List, [], ◌∷◌, String,
  str_eq, arith, Memᴰ, ok, eq_iff,
}
use oddk.Disk.{Disk, found, local_archive_present}
use oddk.Retention.{days_before, complete_pin_cutoff, snapshot_is_complete, day}
use oddk.Snapshots.{Record, local_path, remote_path}
use oddk.Snapshots.Located.{IsCatalogue}
use oddk.SnapshotCleanup.{
  Faults, Run, cleanup_days, not_configured, limits_at, run_local_cleanup, min_retained_snapshots,
}
use oddk.SnapshotCleanup.LocalFloor.{is_present, OwnPaths, surviving}
use oddk.SnapshotCleanup.Pin.{IsPinnable, is_complete}
use oddk.SnapshotCleanup.Whole.{
  run_local_cleanup-floor, run_local_cleanup-pin, run_local_cleanup-due,
  run_local_cleanup-IsCatalogue,
}

abbrev snapshot : ℕ → ℕ → String → Bool → Record
snapshot id age path complete = record {
  id = id;
  created_at = age * day;
  status = "completed";
  local_location = some path;
  remote_location = none;
  instances = some (record { name = "app"; has_data = complete } ∷ []);
}

abbrev full_one : Record
full_one = snapshot 1 80 "/b/1" true

abbrev table : List Record
table = full_one ∷ snapshot 2 85 "/b/2" false ∷ snapshot 3 90 "/b/3" false ∷ []

abbrev all_found : Disk
all_found p = found

abbrev no_faults : Faults
no_faults = record {
  remove_refused = λ p. false;
  delete_fails = λ k. false;
  clear_fails = λ k. false;
}

table-OwnPaths : OwnPaths table
table-OwnPaths = (
  λ _. (ground (arith, eq_iff "/b/1" "/b/2"), (ground (arith, eq_iff "/b/1" "/b/3"), tt)),
  (λ _. (ground (arith, eq_iff "/b/2" "/b/3"), tt), ((λ _. tt), tt)),
)

table-IsCatalogue : IsCatalogue table
table-IsCatalogue = record { unique = omega arith; located = (refl, (refl, (refl, tt))) }

full_one-IsPinnable :
    IsPinnable (limits_at (100 * day) 7 not_configured no_faults) all_found full_one
unfolding local_archive_present snapshot_is_complete complete_pin_cutoff
full_one-IsPinnable = record { present = refl; complete = refl; young = omega arith }

run_local_cleanup-floor_example :
    (run : Run) × (run_local_cleanup
        (100 * day)
        (cleanup_days 7)
        not_configured
        false
        no_faults
        all_found
        table
      ≡ ok run)
    × (min min_retained_snapshots (surviving all_found table) ≤ surviving run.disk table)
run_local_cleanup-floor_example =
    run_local_cleanup-floor (100 * day) 7 not_configured no_faults all_found table table-OwnPaths

run_local_cleanup-pin_example :
    (run : Run) × (run_local_cleanup
        (100 * day)
        (cleanup_days 7)
        not_configured
        false
        no_faults
        all_found
        table
      ≡ ok run)
    × ((s : Record) × Memᴰ s table × (is_complete s ≡ true) × (is_present run.disk s ≡ true))
run_local_cleanup-pin_example =
    run_local_cleanup-pin (100 * day) 7 not_configured no_faults all_found table {r = full_one}
      table-OwnPaths (Memᴰ.head refl) full_one-IsPinnable

run_local_cleanup-due_example :
    (run : Run) × (run_local_cleanup
        (100 * day)
        (cleanup_days 7)
        not_configured
        false
        no_faults
        all_found
        table
      ≡ ok run)
    × ((run.disk "/b/1" ≡ found)
        ⊎ ((r : Record) × Memᴰ r table
            × (local_path r ≡ "/b/1")
            × (r.created_at < days_before (100 * day) 7)
            × (not_configured ≢ not_configured → str_eq (remote_path r) "" ≡ false)))
run_local_cleanup-due_example =
    run_local_cleanup-due (100 * day) 7 not_configured no_faults all_found table "/b/1" refl

run_local_cleanup-IsCatalogue_example :
    (run : Run) × (run_local_cleanup
        (100 * day)
        (cleanup_days 7)
        not_configured
        false
        no_faults
        all_found
        table
      ≡ ok run)
    × IsCatalogue run.rows
run_local_cleanup-IsCatalogue_example =
    run_local_cleanup-IsCatalogue (100 * day) 7 not_configured no_faults all_found table
      table-IsCatalogue
