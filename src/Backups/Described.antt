-- ===== src/Backups/Described.antt =====
-- A listed row described by its copies: whether it is gone, its size, and what is shown of it.
use oddk.Base.{
  ℕ, ◌≡◌, refl, ap, Bool, true, false, not, ◌&&◌, Option, none, some, String, str_eq, if◌then◌else◌,
  arith, ◌∙◌,
}
use oddk.Disk.{Disk, Stat, found, not_exist, failed, resolve}
use oddk.Backups.{
  BackupRecord, Checked, Host, Faults, exists, validate_backup_file, validate_at, is_orphan,
  with_actual_size, resized,
}
use oddk.Backups.Sweep.{checked, lost, refreshed}

abbrev pub is_found : Stat → Bool
is_found found = true
is_found not_exist = false
is_found failed = false

module _ (host : Host) (disk : Disk) where
  abbrev path_of : String → String
  path_of location = resolve host.data_dir location

  -- The remote copy, the local copy, and the status.
  abbrev pub gone_with : Option String → Option String → String → Bool
  gone_with (some remote) local status = false
  gone_with none none status = str_eq status "completed"
  gone_with none (some location) status = not (is_found (disk (path_of location)))

  -- No copy of the backup is left: a remote copy is taken to be there, a local one has to be found,
  -- and without any location only a completed backup counts.
  abbrev pub is_gone : BackupRecord → Bool
  is_gone b = gone_with b.remote_location b.local_location b.status

  abbrev pub has_file : Option String → Bool
  has_file none = false
  has_file (some location) = is_found (disk (path_of location))

  abbrev pub file_size : Option String → ℕ
  file_size none = 0
  file_size (some location) =
      if is_found (disk (path_of location)) then host.sizes (path_of location) else 0

  -- The row with the size of its file, if there is one and the update is accepted.
  abbrev pub resized_to_file : Faults → BackupRecord → BackupRecord
  resized_to_file faults b = record b {
    size =
        if has_file b.local_location && not (faults.update_fails b.id)
        then file_size b.local_location
        else b.size;
  }

  abbrev pub shown : Faults → BackupRecord → Checked
  shown faults b = record {
    backup = resized_to_file faults b;
    file_exists = has_file b.local_location;
    actual_size = file_size b.local_location;
  }

  found-exists : (s : Stat) → exists s ≡ is_found s
  found-exists found = refl
  found-exists not_exist = refl
  found-exists failed = refl

  checked-has_file :
      (b : BackupRecord) (l : Option String)
      → validate_at host disk b l
        ≡ record { backup = b; file_exists = has_file l; actual_size = file_size l }
  checked-has_file b none = refl
  checked-has_file b (some location) = rw (found-exists (disk (path_of location))) refl

  orphan-gone :
      (l r : Option String) (b : BackupRecord)
      → is_orphan record {
        backup = record b { local_location = l; remote_location = r };
        file_exists = has_file l;
        actual_size = file_size l;
      }
        ≡ gone_with r l b.status
  unfolding is_orphan
  orphan-gone none none b = ground arith
  orphan-gone none (some x) b = ground arith
  orphan-gone (some x) none b = ground arith
  orphan-gone (some x) (some y) b = ground arith

  resized-size :
      (r : Bool) (b : BackupRecord) (n : ℕ)
      → (if r then record b { size = n } else b) ≡ record b { size = if r then n else b.size }
  resized-size true b n = refl
  resized-size false b n = refl

  resized-shown :
      (r : Bool) (c : Checked) (n : ℕ)
      → (if r then record c { backup = record (c.backup) { size = n } } else c)
        ≡ record c { backup = record (c.backup) { size = if r then n else c.backup.size } }
  resized-shown true c n = refl
  resized-shown false c n = refl

  module _ (faults : Faults) (b : BackupRecord) where
    abbrev seen : Checked
    seen = record {
      backup = b;
      file_exists = has_file b.local_location;
      actual_size = file_size b.local_location;
    }

    same_size : (if resized faults.update_fails seen then seen.actual_size else b.size) ≡ (
        if has_file b.local_location && not (faults.update_fails b.id)
        then file_size b.local_location
        else b.size)
    same_size = ground arith

    pub lost-is_gone : lost faults host disk b ≡ is_gone b
    unfolding validate_backup_file
    lost-is_gone =
        ap is_orphan (checked-has_file b b.local_location)
        ∙ orphan-gone b.local_location b.remote_location b

    pub refreshed-resized : refreshed faults host disk b ≡ resized_to_file faults b
    unfolding validate_backup_file
    refreshed-resized = rw (checked-has_file b b.local_location) (
        resized-size (resized faults.update_fails seen) b seen.actual_size
        ∙ ap (λ (n : ℕ). record b { size = n }) same_size)

    pub with_actual_size-shown :
        with_actual_size faults.update_fails (checked faults host disk b) ≡ shown faults b
    unfolding validate_backup_file with_actual_size
    with_actual_size-shown = rw (checked-has_file b b.local_location) (
        resized-shown (resized faults.update_fails seen) seen seen.actual_size
        ∙ ap (λ (n : ℕ). record (seen) { backup = record b { size = n } }) same_size)
