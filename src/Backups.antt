-- ===== src/Backups.antt =====
-- internal/store/backup: the backup catalogue (table backup_history). The table is a list of rows; a
-- statement that the database can refuse takes the refusal as an argument. Log lines, comments and
-- creation times are left out.
pub mod Copies
pub mod Sweep
pub mod Described
pub mod Listing
pub mod Repoint
pub mod Dangling
pub mod Resweep
pub mod Schema
pub mod Offsite
pub mod History
pub mod OffsiteHistory
pub mod Answer
mod Tests
use oddk.Base.{
  ℕ, suc, Bool, true, false, not, ◌&&◌, ◌||◌, Option, none, some, List, [], ◌∷◌, ◌++◌, map, filter,
  all, String, str_eq, ◌==◌, if◌then◌else◌, Result, ok, err,
}
use oddk.Disk.{Disk, Stat, found, resolve, remove_file}
use oddk.Newest.{newest_by}

pub record BackupRecord : Type 0 where
  pub id : ℕ
  pub instance_name : String
  pub timestamp : ℕ
  pub size : ℕ
  pub local_location : Option String
  pub remote_location : Option String
  pub status : String
  pub sha256 : Option String

-- A row with the fields that are computed from the file system.
pub record Checked : Type 0 where
  pub backup : BackupRecord
  pub file_exists : Bool
  pub actual_size : ℕ

pub data BackupError : Type 0 where
  database backup_not_found wrong_instance no_copy remove_failed : BackupError

-- The data directory, and the size that os.Stat reports of a file that is there.
pub record Host : Type 0 where
  pub data_dir : String
  pub sizes : String → ℕ

-- The ids for which the database refuses a statement.
pub record Faults : Type 0 where
  pub read_fails : ℕ → Bool
  pub update_fails : ℕ → Bool
  pub delete_fails : ℕ → Bool

-- `sql.NullString.Valid`
abbrev pub valid : Option String → Bool
valid none = false
valid (some s) = true

abbrev pub exists : Stat → Bool
exists found = true
exists _ = false

-- `validateBackupFile`, and the zero values where it is not called.
abbrev pub validate_at : Host → Disk → BackupRecord → Option String → Checked
validate_at host disk b none = record { backup = b; file_exists = false; actual_size = 0 }
validate_at host disk b (some location) =
    let path = resolve host.data_dir location in
    let there = exists (disk path) in
    record { backup = b; file_exists = there; actual_size = if there then host.sizes path else 0 }

pub validate_backup_file : Host → Disk → BackupRecord → Checked
validate_backup_file host disk b = validate_at host disk b b.local_location

-- The two cases that send a record to the orphans.
pub is_orphan : Checked → Bool
is_orphan c =
    (str_eq c.backup.status "completed"
      && not (valid c.backup.local_location)
      && not (valid c.backup.remote_location))
    || (valid c.backup.local_location && not c.file_exists && not (valid c.backup.remote_location))

abbrev pub update_row : ℕ → (BackupRecord → BackupRecord) → List BackupRecord → List BackupRecord
update_row k f rows = map (λ b. if b.id == k then f b else b) rows

abbrev pub drop_row : ℕ → List BackupRecord → List BackupRecord
drop_row k rows = filter (λ b. not (b.id == k)) rows

-- `backups[i].FileExists && backups[i].ActualSize != backups[i].Size`, where the update is accepted.
abbrev pub resized : (ℕ → Bool) → Checked → Bool
resized update_fails c =
    c.file_exists && not (c.actual_size == c.backup.size) && not (update_fails c.backup.id)

-- The listed record and the table after the size was compared.
pub with_actual_size : (ℕ → Bool) → Checked → Checked
with_actual_size update_fails c =
    if resized update_fails c
    then record c { backup = record (c.backup) { size = c.actual_size } }
    else c

pub update_backup_size : (ℕ → Bool) → Checked → List BackupRecord → List BackupRecord
update_backup_size update_fails c rows =
    if resized update_fails c
    then update_row c.backup.id (λ b. record b { size = c.actual_size }) rows
    else rows

-- What the loop of a listing builds.
pub record Scan : Type 0 where
  pub valid_backups : List Checked
  pub orphaned : List ℕ
  pub rows : List BackupRecord

-- `for i := range backups`
pub scan : (ℕ → Bool) → List Checked → List BackupRecord → Scan
unfolding is_orphan with_actual_size update_backup_size
scan update_fails [] rows = record { valid_backups = []; orphaned = []; rows = rows }
scan update_fails (c ∷ rest) rows =
    let orphan = is_orphan c in
    let after =
      scan update_fails rest (if orphan then rows else update_backup_size update_fails c rows) in
    if orphan
    then record after { orphaned = c.backup.id ∷ after.orphaned }
    else record after { valid_backups = with_actual_size update_fails c ∷ after.valid_backups }

-- Up to the first refusal, which the caller only logs.
pub cleanup_orphaned_records : (ℕ → Bool) → List ℕ → List BackupRecord → List BackupRecord
cleanup_orphaned_records delete_fails [] rows = rows
cleanup_orphaned_records delete_fails (k ∷ ks) rows =
    let rest = cleanup_orphaned_records delete_fails ks (drop_row k rows) in
    if delete_fails k then rows else rest

-- What both listings do with the rows of their SELECT.
pub sweep :
    Faults → Host → Disk → List BackupRecord → List BackupRecord → List Checked × List BackupRecord
unfolding validate_backup_file scan cleanup_orphaned_records
sweep faults host disk selected rows =
    let s = scan faults.update_fails (map (validate_backup_file host disk) selected) rows in
    (s.valid_backups, cleanup_orphaned_records faults.delete_fails s.orphaned s.rows)

-- ORDER BY timestamp DESC
abbrev pub newest_first : List BackupRecord → List BackupRecord
newest_first = newest_by (λ b. b.timestamp)

abbrev pub of_instance : String → List BackupRecord → List BackupRecord
of_instance name rows = filter (λ b. str_eq b.instance_name name) rows

-- A listing returns its answer and the table after it.
pub list_backups :
    Bool
    → Faults
    → Host
    → Disk
    → String
    → List BackupRecord
    → Result BackupError (List Checked × List BackupRecord)
unfolding sweep
list_backups fails faults host disk name rows =
    if fails
    then err database
    else ok (sweep faults host disk (newest_first (of_instance name rows)) rows)

pub list_all_backups :
    Bool
    → Faults
    → Host
    → Disk
    → List BackupRecord
    → Result BackupError (List Checked × List BackupRecord)
unfolding sweep
list_all_backups fails faults host disk rows =
    if fails then err database else ok (sweep faults host disk (newest_first rows) rows)
