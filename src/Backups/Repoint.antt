-- ===== src/Backups/Repoint.antt =====
-- `ReconcileLocalLocations` of internal/store/backup/backup.go, which `snapshot apply` calls.
use Prim.Native.Char.{code}
use Prim.Native.String.{◌++◌}
use oddk.Base.{
  ℕ, suc, Bool, true, false, ◌||◌, Option, none, some, List, [], ◌∷◌, String, str_eq, ◌==◌,
  if◌then◌else◌, Result, ok, err,
}
use oddk.Disk.{Disk}
use oddk.Backups.{BackupRecord, BackupError, database, exists}
use oddk.Backups.Copies.{update_local_location, clear_local_location}

abbrev pub slash : ℕ
slash = b'/'

pub trim_slashes : String → String
trim_slashes String.[] = ""
trim_slashes (String.◌∷◌ c s) =
    let rest = trim_slashes s in
    if str_eq rest "" then (if code c == slash then "" else String.◌∷◌ c "") else String.◌∷◌ c rest

abbrev has_slash : String → Bool
has_slash String.[] = false
has_slash (String.◌∷◌ c s) = (code c == slash) || has_slash s

pub after_last_slash : String → String
after_last_slash String.[] = ""
after_last_slash (String.◌∷◌ c s) =
    let rest = after_last_slash s in
    if has_slash s then rest else if code c == slash then s else String.◌∷◌ c s

-- `filepath.Base`
unfoldable pub base_name : String → String
unfolding trim_slashes after_last_slash
base_name path =
    if str_eq path ""
    then "."
    else (let last = after_last_slash (trim_slashes path) in if str_eq last "" then "/" else last)

-- `filepath.Join` of a clean directory and the name of a file; Base gives no other slash than the
-- root's.
unfoldable pub join : String → String → String
join dir name = if str_eq name "/" then dir else dir ++ ("/" ++ name)

-- `!loc.Valid || loc.String == ""`
abbrev pub unset : Option String → Bool
unset none = true
unset (some s) = str_eq s ""

-- What the body of the loop decides for a row.
pub data Fate : Type 0 where
  kept dangling cleared : Fate
  repointed : String → Fate

abbrev pub candidate : String → String → String
candidate backup_dir location = join backup_dir (base_name location)

abbrev pub found_at : String → String → Fate
found_at location c = if str_eq c location then kept else repointed c

abbrev pub fate_at : String → Disk → BackupRecord → Option String → Fate
fate_at backup_dir disk b none = if unset b.remote_location then dangling else kept
fate_at backup_dir disk b (some location) =
    if str_eq location ""
    then (if unset b.remote_location then dangling else kept)
    else if exists (disk (candidate backup_dir location))
    then found_at location (candidate backup_dir location)
    else if unset b.remote_location
    then dangling
    else cleared

unfoldable pub fate : String → Disk → BackupRecord → Fate
fate backup_dir disk b = fate_at backup_dir disk b b.local_location

-- The counters and the table.
pub record Repair : Type 0 where
  pub repointed_count : ℕ
  pub cleared_count : ℕ
  pub dangling_after : ℕ
  pub rows : List BackupRecord

abbrev pub counting_repoint :
    Repair → Result BackupError (List BackupRecord) → Option BackupError × Repair
counting_repoint run (err e) = (some e, run)
counting_repoint run (ok rows) =
    (none, record run { repointed_count = suc run.repointed_count; rows = rows })

abbrev pub counting_clear :
    Repair → Result BackupError (List BackupRecord) → Option BackupError × Repair
counting_clear run (err e) = (some e, run)
counting_clear run (ok rows) =
    (none, record run { cleared_count = suc run.cleared_count; rows = rows })

abbrev pub repair : (ℕ → Bool) → BackupRecord → Fate → Repair → Option BackupError × Repair
repair fails b kept run = (none, run)
repair fails b dangling run = (none, record run { dangling_after = suc run.dangling_after })
repair fails b cleared run = counting_clear run (clear_local_location fails b.id run.rows)
repair fails b (repointed c) run =
    counting_repoint run (update_local_location fails b.id c run.rows)

abbrev pub unless_failed :
    Option BackupError × Repair
    → (Repair → Option BackupError × Repair)
    → Option BackupError × Repair
unless_failed (some e, run) rest = (some e, run)
unless_failed (none, run) rest = rest run

unfoldable pub repair_loop :
    (ℕ → Bool) → String → Disk → List BackupRecord → Repair → Option BackupError × Repair
unfolding fate
repair_loop fails backup_dir disk [] run = (none, run)
repair_loop fails backup_dir disk (b ∷ rest) run =
    unless_failed (repair fails b (fate backup_dir disk b) run)
      (λ after. repair_loop fails backup_dir disk rest after)

abbrev pub fresh_repair : List BackupRecord → Repair
fresh_repair rows = record {
  repointed_count = 0;
  cleared_count = 0;
  dangling_after = 0;
  rows = rows;
}

-- The counters, the table and the error.
unfoldable pub reconcile_local_locations :
    Bool → (ℕ → Bool) → String → Disk → List BackupRecord → Option BackupError × Repair
unfolding repair_loop
reconcile_local_locations read_fails fails backup_dir disk rows =
    if read_fails
    then (some database, fresh_repair rows)
    else repair_loop fails backup_dir disk rows (fresh_repair rows)
