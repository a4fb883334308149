-- ===== src/Backups/Tests.antt =====
-- A catalogue of three backups on a host that has one of the files.
use oddk.Base.{
  ℕ, ◌+◌, ◌≤◌, ◌≡◌, map, filter, not, ◌&&◌, refl, if◌then◌else◌, false, none, some, List, [], ◌∷◌,
  length, String, str_eq, ok, err, arith, Distinct,
}
use oddk.Disk.{remove_file, Disk, found, not_exist, failed}
use oddk.Backups.{
  BackupRecord, Checked, Host, Faults, no_copy, backup_not_found, list_backups, list_all_backups,
  newest_first, of_instance,
}
use oddk.Newest.{newest_by}
use oddk.Backups.Described.{is_gone, shown, resized_to_file}
use oddk.Backups.Listing.{list_backups_lem}
use oddk.Backups.Copies.{delete_record, remove_local_copy, remove_remote_copy}
use oddk.Backups.Repoint.{Repair, base_name, reconcile_local_locations}
use oddk.Backups.Resweep.{reconcile_local_locations-dangling}
use oddk.Backups.Schema.{IsCatalogue}
use oddk.Backups.Offsite.{IsOffsite}
use oddk.Backups.OffsiteHistory.{Reach, Reach-IsOffsite}
use oddk.Backups.History.{Step}

abbrev host : Host
host = record { data_dir = "/data"; sizes = λ path. 70 }

abbrev no_faults : Faults
no_faults = record { read_fails = λ k. false; update_fails = λ k. false; delete_fails = λ k. false }

abbrev backup : ℕ → String → BackupRecord
backup id path = record {
  id = id;
  instance_name = "app";
  timestamp = id;
  size = 64;
  local_location = some path;
  remote_location = none;
  status = "completed";
  sha256 = none;
}

abbrev uploaded : BackupRecord
uploaded = record (backup 3 "/old/3.tar") { remote_location = some "s3://acme/3.tar" }

abbrev table : List BackupRecord
table = backup 1 "/old/1.tar" ∷ backup 2 "/old/2.tar" ∷ uploaded ∷ []

-- Only the second archive was copied across.
abbrev disk : Disk
disk path = if str_eq path "/new/2.tar" then found else not_exist

table-Distinct : Distinct (λ (b : BackupRecord). b.id) table
table-Distinct = omega arith

table-IsCatalogue : IsCatalogue table
table-IsCatalogue = record { unique = omega arith; in_place = (refl, (refl, (refl, tt))) }

base_name-last : base_name "/old/2.tar/" ≡ "2.tar"
unfolding base_name
base_name-last = refl

remove_local_copy-missing :
    (remove_local_copy (λ p. false) no_faults host 7 "app" disk table).0 ≡ err backup_not_found
unfolding remove_local_copy
remove_local_copy-missing = refl

remove_remote_copy-local : remove_remote_copy no_faults host disk 1 "app" table ≡ err no_copy
unfolding remove_remote_copy
remove_remote_copy-local = refl

-- A row whose only copy cannot be stat-ed, for whatever reason, is dropped.
list_backups-failed :
    list_backups false no_faults host (λ path. failed) "app" (backup 1 "/old/1.tar" ∷ [])
    ≡ ok ([], [])
unfolding list_backups newest_by
list_backups-failed = refl

list_backups_lem_example :
    list_backups false no_faults host disk "app" table
    ≡ ok (
      map
          (shown host disk no_faults)
          (filter (λ b. not (is_gone host disk b)) (newest_first (of_instance "app" table))),
      map
          (λ b. if str_eq b.instance_name "app" then resized_to_file host disk no_faults b else b)
          (filter (λ b. not (str_eq b.instance_name "app" && is_gone host disk b)) table),
    )
list_backups_lem_example =
    list_backups_lem no_faults host disk table "app" (λ k. refl) table-Distinct

reconcile_local_locations-dangling_example :
    (run : Repair) × (left : List BackupRecord) × (found : List Checked)
    × (reconcile_local_locations false (λ k. false) "/new" disk table ≡ (none, run))
    × (list_all_backups false no_faults host disk run.rows ≡ ok (found, left))
    × (length table ≤ length left + run.dangling_after)
reconcile_local_locations-dangling_example =
    reconcile_local_locations-dangling no_faults host "/new" disk table refl (λ k. refl) (λ k. refl)
      table-Distinct

abbrev after_local : List BackupRecord
after_local =
    backup 1 "/old/1.tar" ∷ backup 2 "/old/2.tar" ∷ record uploaded { local_location = none } ∷ []

-- The local copy of the uploaded backup goes, and the record of another.
abbrev after_delete : List BackupRecord
after_delete = backup 2 "/old/2.tar" ∷ record uploaded { local_location = none } ∷ []

removed_and_deleted : Reach 3 table after_delete
unfolding remove_local_copy delete_record remove_file
removed_and_deleted =
    Reach.next
      (Reach.next Reach.here
        (Step.local_removed (λ p. false) no_faults host 3 "app" disk {rows' = after_local} refl) tt)
      (Step.deleted (λ j. false) 1 {rows' = after_delete} refl) (omega arith)

table-IsOffsite : IsOffsite 3 table
table-IsOffsite = refl

Reach-IsOffsite_example : IsOffsite 3 after_delete
Reach-IsOffsite_example = Reach-IsOffsite removed_and_deleted table-IsCatalogue table-IsOffsite
