-- ===== src/Backups/Copies.antt =====
-- internal/store/backup/backup.go: the operations on one record.
use oddk.Base.{
  ℕ, Bool, true, false, not, ◌||◌, Option, none, some, List, [], ◌∷◌, ◌++◌, all, String, str_eq,
  ◌==◌, if◌then◌else◌, Result, ok, err,
}
use oddk.Disk.{Disk, resolve, remove_file}
use oddk.Backups.{
  BackupRecord, Checked, BackupError, database, backup_not_found, wrong_instance, no_copy,
  remove_failed, Host, Faults, valid, validate_backup_file, update_row, drop_row,
}

-- CHECK (local_location IS NOT NULL OR remote_location IS NOT NULL)
abbrev pub located : BackupRecord → Bool
located b = valid b.local_location || valid b.remote_location

-- An UPDATE of the row of an id: the database can refuse it, and does if the CHECK would fail. No
-- row of that id is no error.
unfoldable pub update_where :
    (ℕ → Bool)
    → ℕ
    → (BackupRecord → BackupRecord)
    → List BackupRecord
    → Result BackupError (List BackupRecord)
update_where fails k f rows =
    if fails k || not (all (λ b. not (b.id == k) || located (f b)) rows)
    then err database
    else ok (update_row k f rows)

-- The id is the one that AUTOINCREMENT gives.
unfoldable pub record_backup :
    Bool → ℕ → BackupRecord → List BackupRecord → Result BackupError (List BackupRecord)
record_backup fails next_id b rows =
    if fails || not (located b) then err database else ok (rows ++ (record b { id = next_id } ∷ []))

unfoldable pub delete_record :
    (ℕ → Bool) → ℕ → List BackupRecord → Result BackupError (List BackupRecord)
delete_record fails k rows = if fails k then err database else ok (drop_row k rows)

abbrev pub find_backup : ℕ → List BackupRecord → Option BackupRecord
find_backup k [] = none
find_backup k (b ∷ rows) = let rest = find_backup k rows in if b.id == k then some b else rest

abbrev pub checked_or_missing : Host → Disk → Option BackupRecord → Result BackupError Checked
checked_or_missing host disk none = err backup_not_found
checked_or_missing host disk (some b) = ok (validate_backup_file host disk b)

unfoldable pub get_backup_by_id :
    (ℕ → Bool) → Host → Disk → ℕ → List BackupRecord → Result BackupError Checked
unfolding validate_backup_file
get_backup_by_id fails host disk k rows =
    if fails k then err database else checked_or_missing host disk (find_backup k rows)

abbrev pub with_remote : String → BackupRecord → BackupRecord
with_remote location b = record b { remote_location = some location }

abbrev pub with_local : String → BackupRecord → BackupRecord
with_local location b = record b { local_location = some location }

abbrev pub without_local : BackupRecord → BackupRecord
without_local b = record b { local_location = none }

abbrev pub without_remote : BackupRecord → BackupRecord
without_remote b = record b { remote_location = none }

unfoldable pub update_remote_location :
    (ℕ → Bool) → ℕ → String → List BackupRecord → Result BackupError (List BackupRecord)
unfolding update_where
update_remote_location fails k location = update_where fails k (with_remote location)

unfoldable pub update_local_location :
    (ℕ → Bool) → ℕ → String → List BackupRecord → Result BackupError (List BackupRecord)
unfolding update_where
update_local_location fails k location = update_where fails k (with_local location)

unfoldable pub clear_local_location :
    (ℕ → Bool) → ℕ → List BackupRecord → Result BackupError (List BackupRecord)
unfolding update_where
clear_local_location fails k = update_where fails k without_local

unfoldable pub clear_remote_location :
    (ℕ → Bool) → ℕ → List BackupRecord → Result BackupError (List BackupRecord)
unfolding update_where
clear_remote_location fails k = update_where fails k without_remote

-- WHERE id = ? AND sha256 IS NULL
abbrev pub digest_if_unknown : String → BackupRecord → BackupRecord
digest_if_unknown digest b = if valid b.sha256 then b else record b { sha256 = some digest }

unfoldable pub set_sha256_if_unknown :
    (ℕ → Bool) → ℕ → String → List BackupRecord → Result BackupError (List BackupRecord)
unfolding update_where
set_sha256_if_unknown fails k digest = update_where fails k (digest_if_unknown digest)

-- After the file is gone: without a remote copy the record goes, and else only its location.
unfoldable pub forget_local_copy :
    Faults → BackupRecord → List BackupRecord → Result BackupError (List BackupRecord)
unfolding delete_record clear_local_location
forget_local_copy faults b rows =
    if valid b.remote_location
    then clear_local_location faults.update_fails b.id rows
    else delete_record faults.delete_fails b.id rows

abbrev pub after_removal :
    Bool × Disk
    → List BackupRecord
    → Result BackupError (List BackupRecord)
    → Result BackupError (List BackupRecord) × Disk
after_removal (true, disk) rows forgotten = (forgotten, disk)
after_removal (false, disk) rows forgotten = (err remove_failed, disk)

abbrev pub remove_found_local :
    (String → Bool)
    → Faults
    → Host
    → String
    → Disk
    → List BackupRecord
    → BackupRecord
    → Option String
    → Result BackupError (List BackupRecord) × Disk
remove_found_local refused faults host name disk rows b none =
    (if str_eq b.instance_name name then err no_copy else err wrong_instance, disk)
remove_found_local refused faults host name disk rows b (some location) =
    if str_eq b.instance_name name
    then after_removal (remove_file refused disk (resolve host.data_dir location)) rows
        (forget_local_copy faults b rows)
    else (err wrong_instance, disk)

abbrev pub remove_read_local :
    (String → Bool)
    → Faults
    → Host
    → String
    → Disk
    → List BackupRecord
    → Result BackupError Checked
    → Result BackupError (List BackupRecord) × Disk
remove_read_local refused faults host name disk rows (err e) = (err e, disk)
remove_read_local refused faults host name disk rows (ok c) =
    remove_found_local refused faults host name disk rows c.backup c.backup.local_location

-- `RemoveLocalCopy`: the table afterwards or the error, and the disk.
unfoldable pub remove_local_copy :
    (String → Bool)
    → Faults
    → Host
    → ℕ
    → String
    → Disk
    → List BackupRecord
    → Result BackupError (List BackupRecord) × Disk
unfolding get_backup_by_id forget_local_copy
remove_local_copy refused faults host k name disk rows =
    remove_read_local refused faults host name disk rows
      (get_backup_by_id faults.read_fails host disk k rows)

-- The catalogue's part of `RemoveRemoteCopy`.
unfoldable pub forget_remote_copy :
    Faults → BackupRecord → List BackupRecord → Result BackupError (List BackupRecord)
unfolding delete_record clear_remote_location
forget_remote_copy faults b rows =
    if valid b.local_location
    then clear_remote_location faults.update_fails b.id rows
    else delete_record faults.delete_fails b.id rows

abbrev pub remove_read_remote :
    Faults
    → String
    → List BackupRecord
    → Result BackupError Checked
    → Result BackupError (List BackupRecord)
remove_read_remote faults name rows (err e) = err e
remove_read_remote faults name rows (ok c) =
    if not (str_eq c.backup.instance_name name)
    then err wrong_instance
    else if not (valid c.backup.remote_location)
    then err no_copy
    else forget_remote_copy faults c.backup rows

-- `RemoveRemoteCopy` touches the catalogue only.
unfoldable pub remove_remote_copy :
    Faults → Host → Disk → ℕ → String → List BackupRecord → Result BackupError (List BackupRecord)
unfolding get_backup_by_id forget_remote_copy
remove_remote_copy faults host disk k name rows =
    remove_read_remote faults name rows (get_backup_by_id faults.read_fails host disk k rows)
