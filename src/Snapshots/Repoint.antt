-- ===== src/Snapshots/Repoint.antt =====
-- ReconcileLocalLocations of internal/store/snapshot/snapshot.go, which `snapshot apply` calls.
use oddk.Base.{ℕ, suc, Bool, Option, none, some, List, [], ◌∷◌, String, str_eq, if◌then◌else◌}
use oddk.Disk.{Disk}
use oddk.Backups.{exists}
use oddk.Backups.Repoint.{Fate, kept, dangling, cleared, repointed, candidate, found_at, unset}
use oddk.Snapshots.{Record, StoreError, database, update_row}

abbrev without_copy : Option String → Fate
without_copy remote = if unset remote then dangling else kept

abbrev missing : Option String → Fate
missing remote = if unset remote then dangling else cleared

abbrev fate_at : String → Disk → Option String → Option String → Fate
fate_at backup_dir disk remote none = without_copy remote
fate_at backup_dir disk remote (some location) =
    if str_eq location ""
    then without_copy remote
    else if exists (disk (candidate backup_dir location))
    then found_at location (candidate backup_dir location)
    else missing remote

-- The counters and the table.
pub record Repair : Type 0 where
  pub repointed_count : ℕ
  pub cleared_count : ℕ
  pub dangling_after : ℕ
  pub rows : List Record

abbrev set_local : ℕ → Option String → List Record → List Record
set_local id location rows = update_row id (λ r. record r { local_location = location }) rows

-- The body of the loop; the flag says whether the database refuses the row's statement.
abbrev repair : Bool → ℕ → Fate → Repair → Option StoreError × Repair
repair refused id kept run = (none, run)
repair refused id dangling run = (none, record run { dangling_after = suc run.dangling_after })
repair refused id cleared run = if refused then (some database, run) else (
  none,
  record run { cleared_count = suc run.cleared_count; rows = set_local id none run.rows },
)
repair refused id (repointed c) run = if refused then (some database, run) else (
  none,
  record run { repointed_count = suc run.repointed_count; rows = set_local id (some c) run.rows },
)

abbrev unless_failed :
    Option StoreError × Repair → (Repair → Option StoreError × Repair) → Option StoreError × Repair
unless_failed (some e, run) rest = (some e, run)
unless_failed (none, run) rest = rest run

pub repair_loop : (ℕ → Bool) → String → Disk → List Record → Repair → Option StoreError × Repair
repair_loop fails backup_dir disk [] run = (none, run)
repair_loop fails backup_dir disk (r ∷ rest) run =
    unless_failed
      (repair (fails r.id) r.id (fate_at backup_dir disk r.remote_location r.local_location) run)
      (λ after. repair_loop fails backup_dir disk rest after)

abbrev fresh_repair : List Record → Repair
fresh_repair rows = record {
  repointed_count = 0;
  cleared_count = 0;
  dangling_after = 0;
  rows = rows;
}

unfoldable pub reconcile_local_locations :
    Bool → (ℕ → Bool) → String → Disk → List Record → Option StoreError × Repair
unfolding repair_loop
reconcile_local_locations read_fails fails backup_dir disk rows =
    if read_fails
    then (some database, fresh_repair rows)
    else repair_loop fails backup_dir disk rows (fresh_repair rows)
