-- ===== src/Backups/OffsiteHistory.antt =====
-- Archives that are offsite, over any sequence of operations of the store.
use oddk.Base.{
  ℕ, ◌≡◌, ◌≢◌, sym, ap, subst, ◌∙◌, inl, inr, Bool, true, false, Option, none, some, List, [], ◌∷◌,
  String, str_eq, ok, Result-cases, ok-injective, arith, Bool-cases, Memᴰ, Distinct, Option-cases,
  All-of,
}
use oddk.Disk.{Disk}
use oddk.Newest.Order.{newest_by-mem}
use oddk.Base.{filter-mem}
use oddk.Backups.{
  BackupRecord, Checked, Host, Faults, valid, list_backups, list_all_backups, newest_first,
  of_instance, validate_backup_file,
}
use oddk.Backups.Copies.{
  find_backup, get_backup_by_id, with_local, with_remote, without_local, digest_if_unknown,
  update_local_location, clear_local_location, update_remote_location, set_sha256_if_unknown,
  remove_local_copy, remove_remote_copy, remove_found_local, remove_read_remote, forget_local_copy,
}
use oddk.Backups.Repoint.{
  Fate, Repair, fate, repair, repair_loop, kept, dangling, cleared, repointed, fresh_repair,
  reconcile_local_locations,
}
use oddk.Backups.Schema.{IsCatalogue, after_removal-ok, unless_failed-rows}
use oddk.Backups.Sweep.{checked-backup}
use oddk.Backups.History.{Step, Step-IsCatalogue}
use oddk.Backups.Offsite.{
  IsOffsite, record_backup-IsOffsite, update_where-IsOffsite, delete_record-IsOffsite,
  sweep-IsOffsite, find_backup-mem, forget_local_copy-IsOffsite, forget_remote_copy-IsOffsite,
}

-- The step is none of the two that are meant to make the store forget the archive of the id: a deletion
-- of its record and the removal of its remote copy.
abbrev pub Spares : {rows rows' : List BackupRecord} → ℕ → Step rows rows' → Type 0
Spares k (Step.deleted fails j e) = j ≢ k
Spares k (Step.remote_removed faults host disk j name e) = j ≢ k
Spares k _ = Unit

pub data Reach (k : ℕ) (rows : List BackupRecord) : List BackupRecord → Type 0 where
  here : Reach k rows rows
  next :
      {mid last : List BackupRecord}
      → Reach k rows mid
      → (step : Step mid last) → Spares k step
      → Reach k rows last

module _ (k : ℕ) where
  -- The repair writes local locations only.
  repair-IsOffsite :
      (fails : ℕ → Bool) (b : BackupRecord) (f : Fate) (run : Repair)
      → IsOffsite k run.rows
      → IsOffsite k (repair fails b f run).1.rows
  unfolding update_local_location clear_local_location
  repair-IsOffsite fails b kept run h = h
  repair-IsOffsite fails b dangling run h = h
  repair-IsOffsite fails b cleared run h =
      elim (Result-cases (clear_local_location fails b.id run.rows)) [
        | inl (x, e) ↦ rw e h
        | inr (rows, e) ↦
            rw e (update_where-IsOffsite k fails b.id without_local run.rows (λ c s o. o) e h)
      ]
  repair-IsOffsite fails b (repointed c) run h =
      elim (Result-cases (update_local_location fails b.id c run.rows)) [
        | inl (x, e) ↦ rw e h
        | inr (rows, e) ↦
            rw e (update_where-IsOffsite k fails b.id (with_local c) run.rows (λ c s o. o) e h)
      ]

  repair_loop-IsOffsite :
      (fails : ℕ → Bool) (dir : String) (disk : Disk) (rs : List BackupRecord) (run : Repair)
      → IsOffsite k run.rows
      → IsOffsite k (repair_loop fails dir disk rs run).1.rows
  unfolding repair_loop
  repair_loop-IsOffsite fails dir disk [] run h = h
  repair_loop-IsOffsite fails dir disk (b ∷ rs) run h =
      unless_failed-rows (IsOffsite k) (repair fails b (fate dir disk b) run) _
        (repair-IsOffsite fails b (fate dir disk b) run h)
        (λ after p. repair_loop-IsOffsite fails dir disk rs after p)

  -- The record that is read is a row of the table, with the id that was asked for.
  read-mem :
      (faults : Faults) (host : Host) (disk : Disk) (j : ℕ) (rows : List BackupRecord) {c : Checked}
      → get_backup_by_id faults.read_fails host disk j rows ≡ ok c
      → Memᴰ (c.backup) rows × (c.backup.id ≡ j)
  unfolding get_backup_by_id
  read-mem faults host disk j rows {c} e = elim (Bool-cases (faults.read_fails j)) [
    | inl f ↦ absurd (ground arith)
    | inr f ↦ elim (Option-cases (find_backup j rows)) [
      | inl n ↦ absurd (ground arith)
      | inr (b, n) ↦
          let (m, i) = find_backup-mem k j rows {b = b} n in
          let same : validate_backup_file host disk b ≡ c = ok-injective (rw (f, n) at e) in
          let is : c.backup ≡ b =
            ap (λ (x : Checked). x.backup) (sym same) ∙ checked-backup faults host disk b in
          (
            subst (λ (x : BackupRecord). Memᴰ x rows) (sym is) m,
            ap (λ (x : BackupRecord). x.id) is ∙ i,
          )
    ]
  ]

  local_removed-IsOffsite :
      (refused : String → Bool) (faults : Faults) (host : Host) (name : String) (disk : Disk)
      (rows : List BackupRecord) {rows' : List BackupRecord} (b : BackupRecord)
      (location : Option String)
      → Distinct (λ (r : BackupRecord). r.id) rows
      → Memᴰ b rows
      → (remove_found_local refused faults host name disk rows b location).0 ≡ ok rows'
      → IsOffsite k rows
      → IsOffsite k rows'
  local_removed-IsOffsite refused faults host name disk rows b none unique m e h =
      absurd (ground arith)
  local_removed-IsOffsite refused faults host name disk rows b (some location) unique m e h =
      elim (Bool-cases (str_eq b.instance_name name)) [
        | inl s ↦
            forget_local_copy-IsOffsite k faults b rows unique m
              (after_removal-ok _ rows (forget_local_copy faults b rows) (rw s at e)) h
        | inr s ↦ absurd (ground arith)
      ]

  remote_removed-IsOffsite :
      (faults : Faults) (name : String) (rows : List BackupRecord) {rows' : List BackupRecord}
      (c : Checked)
      → c.backup.id ≢ k
      → remove_read_remote faults name rows (ok c) ≡ ok rows'
      → IsOffsite k rows
      → IsOffsite k rows'
  remote_removed-IsOffsite faults name rows c other e h =
      elim (Bool-cases (str_eq c.backup.instance_name name)) [
        | inr s ↦ absurd (ground arith)
        | inl s ↦ elim (Bool-cases (valid c.backup.remote_location)) [
          | inr v ↦ absurd (ground arith)
          | inl v ↦ forget_remote_copy-IsOffsite k faults c.backup rows other (rw (s, v) at e) h
        ]
      ]

  Step-IsOffsite :
      {rows rows' : List BackupRecord} (step : Step rows rows')
      → Spares k step
      → IsCatalogue rows
      → IsOffsite k rows
      → IsOffsite k rows'
  unfolding update_local_location update_remote_location clear_local_location set_sha256_if_unknown
      remove_local_copy remove_remote_copy list_backups list_all_backups reconcile_local_locations
  Step-IsOffsite {rows} (Step.recorded next_id b fresh e) spared c h =
      record_backup-IsOffsite k next_id b rows e h
  Step-IsOffsite {rows} (Step.deleted fails j e) spared c h =
      delete_record-IsOffsite k fails j rows (All-of _ rows (λ b m o. ground arith)) e h
  Step-IsOffsite {rows} (Step.local_updated fails j location e) spared c h =
      update_where-IsOffsite k fails j (with_local location) rows (λ b s o. o) e h
  Step-IsOffsite {rows} (Step.remote_updated fails j location e) spared c h =
      update_where-IsOffsite k fails j (with_remote location) rows (λ b s o. ground arith) e h
  Step-IsOffsite {rows} (Step.local_cleared fails j e) spared c h =
      update_where-IsOffsite k fails j without_local rows (λ b s o. o) e h
  Step-IsOffsite {rows} (Step.digested fails j digest e) spared c h =
      update_where-IsOffsite k fails j (digest_if_unknown digest) rows (λ b s o. ground arith) e h
  Step-IsOffsite {rows} (Step.local_removed refused faults host j name disk e) spared c h =
      elim (Result-cases (get_backup_by_id faults.read_fails host disk j rows)) [
        | inl (x, r) ↦ absurd (ground arith)
        | inr (b, r) ↦
            local_removed-IsOffsite refused faults host name disk rows b.backup
              b.backup.local_location c.unique (read-mem faults host disk j rows r).0 (rw r at e) h
      ]
  Step-IsOffsite {rows} (Step.remote_removed faults host disk j name e) spared c h =
      elim (Result-cases (get_backup_by_id faults.read_fails host disk j rows)) [
        | inl (x, r) ↦ absurd (ground arith)
        | inr (b, r) ↦
            remote_removed-IsOffsite faults name rows b
              (λ i. spared (sym (read-mem faults host disk j rows r).1 ∙ i)) (rw r at e) h
      ]
  Step-IsOffsite {rows} (Step.listed faults host disk name e) spared c h =
      subst (IsOffsite k) (ap (λ p. p.1) (ok-injective e)) (
        sweep-IsOffsite k faults host disk (newest_first (of_instance name rows)) rows c.unique
          (λ x m.
            (filter-mem (λ b. str_eq b.instance_name name) rows
              (newest_by-mem (λ b. b.timestamp) (of_instance name rows) m)).0)
          h)
  Step-IsOffsite {rows} (Step.all_listed faults host disk e) spared c h =
      subst (IsOffsite k) (ap (λ p. p.1) (ok-injective e)) (
        sweep-IsOffsite k faults host disk (newest_first rows) rows c.unique
          (λ x m. newest_by-mem (λ b. b.timestamp) rows m) h)
  Step-IsOffsite {rows} (Step.reconciled true fails backup_dir disk) spared c h = h
  Step-IsOffsite {rows} (Step.reconciled false fails backup_dir disk) spared c h =
      repair_loop-IsOffsite fails backup_dir disk rows (fresh_repair rows) h

Reach-IsCatalogue :
    {k : ℕ} {rows rows' : List BackupRecord}
    → Reach k rows rows'
    → IsCatalogue rows
    → IsCatalogue rows'
Reach-IsCatalogue Reach.here h = h
Reach-IsCatalogue (Reach.next r s p) h = Step-IsCatalogue s (Reach-IsCatalogue r h)

-- Over any sequence of operations of the store, from a table with unique ids and a location in every
-- row, and whatever the file system and the database refuse on the way: a row of an id that has a
-- remote location leaves one, unless the record of that id is deleted or its remote copy removed.
pub Reach-IsOffsite :
    {k : ℕ} {rows rows' : List BackupRecord}
    → Reach k rows rows'
    → IsCatalogue rows
    → IsOffsite k rows
    → IsOffsite k rows'
Reach-IsOffsite Reach.here c h = h
Reach-IsOffsite {k} (Reach.next r s p) c h =
    Step-IsOffsite k s p (Reach-IsCatalogue r c) (Reach-IsOffsite r c h)
