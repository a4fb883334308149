-- ===== src/Backups/History.antt =====
-- The operations of the store on the catalogue of backups, and the schema that each keeps.
use oddk.Base.{
  ℕ, ◌≡◌, ◌≢◌, refl, ap, subst, Bool, true, false, List, [], ◌∷◌, ◌++◌, String, ok, arith,
  Bool-cases, inl, inr, All, All-append, Distinct, ok-injective,
}
use oddk.Disk.{Disk}
use oddk.Backups.{
  BackupRecord, Checked, Host, Faults, list_backups, list_all_backups, newest_first, of_instance,
}
use oddk.Backups.Copies.{
  with_local, with_remote, without_local, located, digest_if_unknown, update_local_location,
  clear_local_location, update_remote_location, set_sha256_if_unknown, record_backup, delete_record,
  remove_local_copy, remove_remote_copy,
}
use oddk.Backups.Repoint.{reconcile_local_locations, fresh_repair}
use oddk.Backups.Schema.{
  IsCatalogue, IsLocated, update_where-IsCatalogue, delete_record-IsCatalogue,
  remove_read_local-IsCatalogue, remove_read_remote-IsCatalogue, sweep-IsCatalogue,
  repair_loop-IsCatalogue,
}

-- The operations of the store that succeed, and those that fail part-way; the others leave the table.
pub data Step (rows : List BackupRecord) : List BackupRecord → Type 0 where
  recorded :
      (next_id : ℕ) (b : BackupRecord) {rows' : List BackupRecord}
      → All (λ (r : BackupRecord). r.id ≢ next_id) rows
      → record_backup false next_id b rows ≡ ok rows'
      → Step rows rows'
  deleted :
      (fails : ℕ → Bool) (k : ℕ) {rows' : List BackupRecord}
      → delete_record fails k rows ≡ ok rows'
      → Step rows rows'
  local_updated :
      (fails : ℕ → Bool) (k : ℕ) (location : String) {rows' : List BackupRecord}
      → update_local_location fails k location rows ≡ ok rows'
      → Step rows rows'
  remote_updated :
      (fails : ℕ → Bool) (k : ℕ) (location : String) {rows' : List BackupRecord}
      → update_remote_location fails k location rows ≡ ok rows'
      → Step rows rows'
  local_cleared :
      (fails : ℕ → Bool) (k : ℕ) {rows' : List BackupRecord}
      → clear_local_location fails k rows ≡ ok rows'
      → Step rows rows'
  digested :
      (fails : ℕ → Bool) (k : ℕ) (digest : String) {rows' : List BackupRecord}
      → set_sha256_if_unknown fails k digest rows ≡ ok rows'
      → Step rows rows'
  local_removed :
      (refused : String → Bool) (faults : Faults) (host : Host) (k : ℕ) (name : String)
      (disk : Disk) {rows' : List BackupRecord}
      → (remove_local_copy refused faults host k name disk rows).0 ≡ ok rows'
      → Step rows rows'
  remote_removed :
      (faults : Faults) (host : Host) (disk : Disk) (k : ℕ) (name : String)
      {rows' : List BackupRecord}
      → remove_remote_copy faults host disk k name rows ≡ ok rows'
      → Step rows rows'
  listed :
      (faults : Faults) (host : Host) (disk : Disk) (name : String) {answer : List Checked}
      {rows' : List BackupRecord}
      → list_backups false faults host disk name rows ≡ ok (answer, rows')
      → Step rows rows'
  all_listed :
      (faults : Faults) (host : Host) (disk : Disk) {answer : List Checked}
      {rows' : List BackupRecord}
      → list_all_backups false faults host disk rows ≡ ok (answer, rows')
      → Step rows rows'
  reconciled :
      (read_fails : Bool) (fails : ℕ → Bool) (backup_dir : String) (disk : Disk)
      → Step rows (reconcile_local_locations read_fails fails backup_dir disk rows).1.rows

append-Distinct :
    (rows : List BackupRecord) (b : BackupRecord)
    → All (λ (r : BackupRecord). r.id ≢ b.id) rows
    → Distinct (λ (r : BackupRecord). r.id) rows
    → Distinct (λ (r : BackupRecord). r.id) (rows ++ b ∷ [])
append-Distinct [] b fresh h = (tt, tt)
append-Distinct (r ∷ rows) b fresh h = (
  All-append (λ (s : BackupRecord). r.id ≢ s.id) rows (b ∷ []) h.0 (fresh.0, tt),
  append-Distinct rows b fresh.1 h.1,
)

record_backup-IsCatalogue :
    (next_id : ℕ) (b : BackupRecord) (rows : List BackupRecord) {rows' : List BackupRecord}
    → IsCatalogue rows
    → All (λ (r : BackupRecord). r.id ≢ next_id) rows
    → record_backup false next_id b rows ≡ ok rows'
    → IsCatalogue rows'
unfolding record_backup
record_backup-IsCatalogue next_id b rows h fresh e = elim (Bool-cases (located b)) [
  | inl l ↦ subst IsCatalogue (ok-injective (rw l at e)) (record {
    unique = append-Distinct rows (record b { id = next_id }) fresh h.unique;
    in_place = All-append IsLocated rows (record b { id = next_id } ∷ []) h.in_place (l, tt);
  })
  | inr l ↦ absurd (ground arith)
]

pub Step-IsCatalogue :
    {rows rows' : List BackupRecord} → Step rows rows' → IsCatalogue rows → IsCatalogue rows'
unfolding update_local_location update_remote_location clear_local_location set_sha256_if_unknown
    remove_local_copy remove_remote_copy list_backups list_all_backups reconcile_local_locations
Step-IsCatalogue {rows} (Step.recorded next_id b fresh e) h =
    record_backup-IsCatalogue next_id b rows h fresh e
Step-IsCatalogue {rows} (Step.deleted fails k e) h = delete_record-IsCatalogue fails k rows h e
Step-IsCatalogue {rows} (Step.local_updated fails k location e) h =
    update_where-IsCatalogue fails k (with_local location) rows (λ b. refl) h e
Step-IsCatalogue {rows} (Step.remote_updated fails k location e) h =
    update_where-IsCatalogue fails k (with_remote location) rows (λ b. refl) h e
Step-IsCatalogue {rows} (Step.local_cleared fails k e) h =
    update_where-IsCatalogue fails k without_local rows (λ b. refl) h e
Step-IsCatalogue {rows} (Step.digested fails k digest e) h =
    update_where-IsCatalogue fails k (digest_if_unknown digest) rows (λ b. ground arith) h e
Step-IsCatalogue {rows} (Step.local_removed refused faults host k name disk e) h =
    remove_read_local-IsCatalogue refused faults host name disk rows _ h e
Step-IsCatalogue {rows} (Step.remote_removed faults host disk k name e) h =
    remove_read_remote-IsCatalogue faults name rows _ h e
Step-IsCatalogue {rows} (Step.listed faults host disk name e) h =
    subst IsCatalogue (ap (λ p. p.1) (ok-injective e))
      (sweep-IsCatalogue faults host disk (newest_first (of_instance name rows)) rows h)
Step-IsCatalogue {rows} (Step.all_listed faults host disk e) h =
    subst IsCatalogue (ap (λ p. p.1) (ok-injective e))
      (sweep-IsCatalogue faults host disk (newest_first rows) rows h)
Step-IsCatalogue {rows} (Step.reconciled true fails backup_dir disk) h = h
Step-IsCatalogue {rows} (Step.reconciled false fails backup_dir disk) h =
    repair_loop-IsCatalogue fails backup_dir disk rows (fresh_repair rows) h
