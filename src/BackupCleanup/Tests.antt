-- ===== src/BackupCleanup/Tests.antt =====
-- A pass over three backups of one instance, all past a window of seven days.
use oddk.Base.{
  ℕ, ◌*◌, ◌≤◌, ◌<◌, min, ◌≡◌, ◌≢◌, refl, sym, ◌∙◌, ◌⊎◌, Bool, true, false, none, some, List, [],
  ◌∷◌, count_of, String, arith, Memᴰ, ok, Distinct, some-injective, eq_iff, All,
}
use oddk.Disk.{Disk, found}
use oddk.Retention.{day, days_before}
use oddk.SnapshotCleanup.{not_configured, configured}
use oddk.Backups.{BackupRecord, Checked, Host, Faults, valid, list_backups}
use oddk.BackupCleanup.{Run, min_retained_backups, start, run_local_cleanup}
use oddk.BackupCleanup.Local.{file_of}
use oddk.BackupCleanup.LocalFloor.{is_there}
use oddk.BackupCleanup.Justified.{NonEmpty}
use oddk.BackupCleanup.LocalWhole.{OwnFiles, run_local_cleanup-keeps, run_local_cleanup-justified}

abbrev host : Host
host = record { data_dir = "/data"; sizes = λ path. 64 }

abbrev no_faults : Faults
no_faults = record { read_fails = λ k. false; update_fails = λ k. false; delete_fails = λ k. false }

abbrev backup : ℕ → String → BackupRecord
backup id path = record {
  id = id;
  instance_name = "app";
  timestamp = id * day;
  size = 64;
  local_location = some path;
  remote_location = none;
  status = "completed";
  sha256 = none;
}

abbrev table : List BackupRecord
table = backup 1 "/b/1" ∷ backup 2 "/b/2" ∷ backup 3 "/b/3" ∷ []

abbrev all_found : Disk
all_found p = found

abbrev fine : String → Bool
fine path = false

table-Distinct : Distinct (λ (b : BackupRecord). b.id) table
table-Distinct = omega arith

table-OwnFiles : OwnFiles host table
table-OwnFiles = (
  (
    λ p. apart "/b/1" "/b/2" p (ground (arith, eq_iff "/b/1" "/b/2")),
    (λ p. apart "/b/1" "/b/3" p (ground (arith, eq_iff "/b/1" "/b/3")), tt),
  ),
  ((λ p. apart "/b/2" "/b/3" p (ground (arith, eq_iff "/b/2" "/b/3")), tt), (tt, tt)),
)
  where
    apart : (a b p : String) → a ≢ b → some a ≡ some p → some b ≢ some p
    apart a b p h ea eb = h (some-injective ea ∙ sym (some-injective eb))

table-NonEmpty : All NonEmpty table
table-NonEmpty = (
  λ e. ground (arith, some-injective e, eq_iff "/b/1" ""),
  (
    λ e. ground (arith, some-injective e, eq_iff "/b/2" ""),
    (λ e. ground (arith, some-injective e, eq_iff "/b/3" ""), tt),
  ),
)

-- Without a plan nothing is listed and nothing changes.
run_local_cleanup-no_plan :
    run_local_cleanup "app" 0 none false not_configured host no_faults fine all_found table
    ≡ ok (start all_found table)
unfolding run_local_cleanup
run_local_cleanup-no_plan = refl

run_local_cleanup-keeps_example :
    (found : List Checked) × (after : List BackupRecord) × (run : Run) × (list_backups false
        no_faults host all_found "app" table
      ≡ ok (found, after))
    × (run_local_cleanup "app"
          (100 * day)
          (some 7)
          false
          not_configured
          host
          no_faults
          fine
          all_found
          table
        ≡ ok run)
    × (min min_retained_backups (count_of (is_there host all_found) found)
        ≤ count_of (is_there host run.disk) found)
run_local_cleanup-keeps_example =
    run_local_cleanup-keeps "app" (100 * day) 7 not_configured host no_faults fine all_found table
      table-Distinct table-OwnFiles

run_local_cleanup-justified_example :
    (backups : List Checked) × (after : List BackupRecord) × (run : Run) × (list_backups false
        no_faults host all_found "app" table
      ≡ ok (backups, after))
    × (run_local_cleanup "app"
          (100 * day)
          (some 7)
          false
          configured
          host
          no_faults
          fine
          all_found
          table
        ≡ ok run)
    × ((run.disk "/b/1" ≡ found)
        ⊎ ((c : Checked) × Memᴰ c backups
            × (file_of host c.backup ≡ some "/b/1")
            × (c.backup.timestamp < days_before (100 * day) 7)
            × (configured ≢ not_configured → valid c.backup.remote_location ≡ true)))
run_local_cleanup-justified_example =
    run_local_cleanup-justified "app" (100 * day) 7 configured host no_faults fine all_found table
      "/b/1" table-Distinct table-NonEmpty refl
