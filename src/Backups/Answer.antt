-- ===== src/Backups/Answer.antt =====
-- What the answer of a listing keeps of the rows, whatever the database refuses.
use oddk.Base.{
  ◌≡◌, ap, false, not, List, filter, String, str_eq, ok, arith, All, All-filter, All-image,
  Pairwise, Pairwise-filter, Pairwise-image, Memᴰ, filter-mem,
}
use oddk.Disk.{Disk}
use oddk.Newest.Order.{newest_by-mem, All-newest_by, Pairwise-newest_by}
use oddk.Backups.{
  BackupRecord, Checked, Host, Faults, with_actual_size, newest_first, of_instance, list_backups,
  sweep,
}
use oddk.Backups.Sweep.{checked, lost, checked-backup, scan-valid}
use oddk.Backups.Listing.{answer}

module _ (faults : Faults) (host : Host) (disk : Disk) (rows : List BackupRecord)
    (name : String) where
  abbrev pub selected : List BackupRecord
  selected = newest_first (of_instance name rows)

  abbrev pub entry : BackupRecord → Checked
  entry b = with_actual_size faults.update_fails (checked faults host disk b)

  abbrev pub listed : List Checked
  listed = answer faults host disk rows selected

  -- A listed record keeps the id and the locations of its row.
  pub entry-row :
      (b : BackupRecord)
      → ((entry b).backup.id ≡ b.id)
        × ((entry b).backup.local_location ≡ b.local_location)
        × ((entry b).backup.remote_location ≡ b.remote_location)
  unfolding with_actual_size
  entry-row b = ground (arith, checked-backup faults host disk b)

  pub selected-mem :
      {b : BackupRecord}
      → Memᴰ b (filter (λ b. not (lost faults host disk b)) selected)
      → Memᴰ b rows
  selected-mem m =
      (filter-mem (λ b. str_eq b.instance_name name) rows
        (newest_by-mem (λ b. b.timestamp) (of_instance name rows)
          (filter-mem (λ b. not (lost faults host disk b)) selected m).0)).0

  -- A symmetric relation between the rows, and a property of the rows.
  pub listed-Pairwise :
      (R : BackupRecord → BackupRecord → Type 0) (S : Checked → Checked → Type 0)
      → ((b d : BackupRecord) → R b d → R d b)
      → ((b d : BackupRecord) → R b d → S (entry b) (entry d))
      → Pairwise R rows
      → Pairwise S listed
  listed-Pairwise R S commutes passes own =
      Pairwise-image entry R S (filter (λ b. not (lost faults host disk b)) selected) passes (
        Pairwise-filter R (λ b. not (lost faults host disk b)) selected
          (Pairwise-newest_by (λ b. b.timestamp) R commutes (of_instance name rows)
            (Pairwise-filter R (λ b. str_eq b.instance_name name) rows own)))

  pub listed-All :
      (P : BackupRecord → Type 0) (Q : Checked → Type 0)
      → ((b : BackupRecord) → P b → Q (entry b))
      → All P rows
      → All Q listed
  listed-All P Q passes own =
      All-image entry P Q (filter (λ b. not (lost faults host disk b)) selected) passes (
        All-filter P (λ b. not (lost faults host disk b)) selected
          (All-newest_by (λ b. b.timestamp) P (of_instance name rows)
            (All-filter P (λ b. str_eq b.instance_name name) rows own)))

  -- The table after the listing.
  abbrev pub left : List BackupRecord
  left = (sweep faults host disk selected rows).1

  pub list_backups-listed : list_backups false faults host disk name rows ≡ ok (listed, left)
  unfolding list_backups sweep
  list_backups-listed =
      ap (λ (cs : List Checked). ok (cs, left)) (scan-valid faults host disk selected rows)
