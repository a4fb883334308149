-- ===== src/Backups/Schema.antt =====
-- The schema of backup_history: unique ids, and a location in every row.
use oddk.Base.{
  ok-injective, ℕ, ◌≡◌, refl, sym, subst, inl, inr, Bool, true, false, not, ◌||◌, Option, none,
  some, List, [], ◌∷◌, filter, all, String, str_eq, ◌==◌, Result, ok, err, Result-cases, arith,
  Bool-cases, All, All-filter, All-map, Distinct, Distinct-map, Distinct-filter,
}
use oddk.Disk.{Disk}
use oddk.Backups.{
  BackupRecord, Checked, BackupError, Host, Faults, valid, drop_row, update_row, sweep,
  cleanup_orphaned_records,
}
use oddk.Backups.Copies.{
  located, update_where, without_local, without_remote, with_local, update_local_location,
  clear_local_location, clear_remote_location, delete_record, forget_local_copy, forget_remote_copy,
  after_removal, remove_found_local, remove_read_local, remove_read_remote,
}
use oddk.Backups.Sweep.{touch_all, touch_all-id, touch_all-locations, scan-rows}
use oddk.Backups.Repoint.{
  Fate, Repair, fate, repair, repair_loop, unless_failed, kept, dangling, cleared, repointed,
}

abbrev ident : BackupRecord → ℕ
ident b = b.id

abbrev pub IsLocated : BackupRecord → Type 0
IsLocated b = located b ≡ true

pub record IsCatalogue (rows : List BackupRecord) : Type 0 where
  pub unique : Distinct (λ (b : BackupRecord). b.id) rows
  pub in_place : All IsLocated rows

filter-IsCatalogue :
    (p : BackupRecord → Bool) (rows : List BackupRecord)
    → IsCatalogue rows
    → IsCatalogue (filter p rows)
filter-IsCatalogue p rows h = record {
  unique = Distinct-filter ident p rows h.unique;
  in_place = All-filter IsLocated p rows h.in_place;
}

pub delete_record-IsCatalogue :
    (fails : ℕ → Bool) (k : ℕ) (rows : List BackupRecord) {rows' : List BackupRecord}
    → IsCatalogue rows
    → delete_record fails k rows ≡ ok rows'
    → IsCatalogue rows'
unfolding delete_record
delete_record-IsCatalogue fails k rows h e = elim (Bool-cases (fails k)) [
  | inl f ↦ absurd (ground arith)
  | inr f ↦ subst IsCatalogue (ok-injective (rw f at e)) (filter-IsCatalogue _ rows h)
]

checked-IsLocated :
    (k : ℕ) (f : BackupRecord → BackupRecord) (rows : List BackupRecord)
    → All IsLocated rows
    → all (λ b. not (b.id == k) || located (f b)) rows ≡ true
    → All IsLocated (update_row k f rows)
checked-IsLocated k f [] h c = tt
checked-IsLocated k f (b ∷ rows) h c = elim (Bool-cases (b.id == k)) [
  | inl e ↦ rw e (ground arith, checked-IsLocated k f rows h.1 (ground arith))
  | inr e ↦ rw e (h.0, checked-IsLocated k f rows h.1 (ground arith))
]

-- What the database accepts leaves a catalogue.
pub update_where-IsCatalogue :
    (fails : ℕ → Bool) (k : ℕ) (f : BackupRecord → BackupRecord) (rows : List BackupRecord)
    {rows' : List BackupRecord}
    → ((b : BackupRecord) → (f b).id ≡ b.id)
    → IsCatalogue rows
    → update_where fails k f rows ≡ ok rows'
    → IsCatalogue rows'
unfolding update_where
update_where-IsCatalogue fails k f rows keeps h e =
    elim (Bool-cases (fails k || not (all (λ b. not (b.id == k) || located (f b)) rows))) [
      | inl r ↦ absurd (ground arith)
      | inr r ↦ subst IsCatalogue (ok-injective (rw r at e)) (record {
        unique = Distinct-map ident _ rows (λ b. ground (arith, keeps b)) h.unique;
        in_place = checked-IsLocated k f rows h.in_place (ground arith);
      })
    ]

module _ (faults : Faults) (b : BackupRecord) (rows : List BackupRecord)
    {rows' : List BackupRecord} where
  forget_local_copy-IsCatalogue :
      IsCatalogue rows → forget_local_copy faults b rows ≡ ok rows' → IsCatalogue rows'
  unfolding forget_local_copy clear_local_location
  forget_local_copy-IsCatalogue h e = elim (Bool-cases (valid b.remote_location)) [
    | inl v ↦
        update_where-IsCatalogue faults.update_fails b.id without_local rows (λ x. refl) h
          (rw v at e)
    | inr v ↦ delete_record-IsCatalogue faults.delete_fails b.id rows h (rw v at e)
  ]

  forget_remote_copy-IsCatalogue :
      IsCatalogue rows → forget_remote_copy faults b rows ≡ ok rows' → IsCatalogue rows'
  unfolding forget_remote_copy clear_remote_location
  forget_remote_copy-IsCatalogue h e = elim (Bool-cases (valid b.local_location)) [
    | inl v ↦
        update_where-IsCatalogue faults.update_fails b.id without_remote rows (λ x. refl) h
          (rw v at e)
    | inr v ↦ delete_record-IsCatalogue faults.delete_fails b.id rows h (rw v at e)
  ]

pub after_removal-ok :
    (gone : Bool × Disk) (rows : List BackupRecord)
    (forgotten : Result BackupError (List BackupRecord)) {rows' : List BackupRecord}
    → (after_removal gone rows forgotten).0 ≡ ok rows'
    → forgotten ≡ ok rows'
after_removal-ok (true, disk) rows forgotten e = e
after_removal-ok (false, disk) rows forgotten e = absurd (ground arith)

module _ (refused : String → Bool) (faults : Faults) (host : Host) (name : String) (disk : Disk)
    (rows : List BackupRecord) {rows' : List BackupRecord} where
  remove_found_local-IsCatalogue :
      (b : BackupRecord) (location : Option String)
      → IsCatalogue rows
      → (remove_found_local refused faults host name disk rows b location).0 ≡ ok rows'
      → IsCatalogue rows'
  remove_found_local-IsCatalogue b none h e = absurd (ground arith)
  remove_found_local-IsCatalogue b (some location) h e =
      elim (Bool-cases (str_eq b.instance_name name)) [
        | inl s ↦
            forget_local_copy-IsCatalogue faults b rows h
              (after_removal-ok _ rows (forget_local_copy faults b rows) (rw s at e))
        | inr s ↦ absurd (ground arith)
      ]

  pub remove_read_local-IsCatalogue :
      (c : Result BackupError Checked)
      → IsCatalogue rows
      → (remove_read_local refused faults host name disk rows c).0 ≡ ok rows'
      → IsCatalogue rows'
  remove_read_local-IsCatalogue (err x) h e = absurd (ground arith)
  remove_read_local-IsCatalogue (ok c) h e =
      remove_found_local-IsCatalogue c.backup c.backup.local_location h e

module _ (faults : Faults) (name : String) (rows : List BackupRecord)
    {rows' : List BackupRecord} where
  pub remove_read_remote-IsCatalogue :
      (c : Result BackupError Checked)
      → IsCatalogue rows
      → remove_read_remote faults name rows c ≡ ok rows'
      → IsCatalogue rows'
  remove_read_remote-IsCatalogue (err x) h e = absurd (ground arith)
  remove_read_remote-IsCatalogue (ok c) h e =
      elim (Bool-cases (str_eq c.backup.instance_name name)) [
        | inr s ↦ absurd (ground arith)
        | inl s ↦ elim (Bool-cases (valid c.backup.remote_location)) [
          | inr v ↦ absurd (ground arith)
          | inl v ↦ forget_remote_copy-IsCatalogue faults c.backup rows h (rw (s, v) at e)
        ]
      ]

-- What holds of every row, of the table after a listing, whatever is refused.
module _ (P : BackupRecord → Type 0) where
  cleanup_orphaned_records-All :
      (delete_fails : ℕ → Bool) (ks : List ℕ) (rows : List BackupRecord)
      → All P rows
      → All P (cleanup_orphaned_records delete_fails ks rows)
  unfolding cleanup_orphaned_records
  cleanup_orphaned_records-All delete_fails [] rows h = h
  cleanup_orphaned_records-All delete_fails (k ∷ ks) rows h = elim (Bool-cases (delete_fails k)) [
    | inl e ↦ rw e h
    | inr e ↦
        rw e
          (cleanup_orphaned_records-All delete_fails ks (drop_row k rows) (All-filter P _ rows h))
  ]

  pub sweep-All :
      (faults : Faults) (host : Host) (disk : Disk) (xs rows : List BackupRecord)
      → ((b : BackupRecord) → P b → P (touch_all faults host disk xs b))
      → All P rows
      → All P (sweep faults host disk xs rows).1
  unfolding sweep
  sweep-All faults host disk xs rows keeps h =
      cleanup_orphaned_records-All faults.delete_fails _ _
        (subst (All P) (sym (scan-rows faults host disk xs rows)) (All-map P _ rows keeps h))

-- A listing, whatever is refused.
cleanup_orphaned_records-IsCatalogue :
    (delete_fails : ℕ → Bool) (ks : List ℕ) (rows : List BackupRecord)
    → IsCatalogue rows
    → IsCatalogue (cleanup_orphaned_records delete_fails ks rows)
unfolding cleanup_orphaned_records
cleanup_orphaned_records-IsCatalogue delete_fails [] rows h = h
cleanup_orphaned_records-IsCatalogue delete_fails (k ∷ ks) rows h =
    elim (Bool-cases (delete_fails k)) [
      | inl e ↦ rw e h
      | inr e ↦ rw e (
          cleanup_orphaned_records-IsCatalogue delete_fails ks (drop_row k rows)
            (filter-IsCatalogue _ rows h))
    ]

pub sweep-IsCatalogue :
    (faults : Faults) (host : Host) (disk : Disk) (xs rows : List BackupRecord)
    → IsCatalogue rows
    → IsCatalogue (sweep faults host disk xs rows).1
unfolding sweep
sweep-IsCatalogue faults host disk xs rows h =
    cleanup_orphaned_records-IsCatalogue faults.delete_fails _ _ (
      subst IsCatalogue (sym (scan-rows faults host disk xs rows)) (record {
        unique = Distinct-map ident _ rows (touch_all-id faults host disk xs) h.unique;
        in_place =
            All-map IsLocated _ rows
              (λ b l.
                let (here, there) = touch_all-locations faults host disk xs b in rw (here, there) l)
              h.in_place;
      }))

-- One turn of the repair, whatever its outcome, and the whole loop.
repair-IsCatalogue :
    (fails : ℕ → Bool) (b : BackupRecord) (f : Fate) (run : Repair)
    → IsCatalogue run.rows
    → IsCatalogue (repair fails b f run).1.rows
unfolding update_local_location clear_local_location
repair-IsCatalogue fails b kept run h = h
repair-IsCatalogue fails b dangling run h = h
repair-IsCatalogue fails b cleared run h =
    elim (Result-cases (clear_local_location fails b.id run.rows)) [
      | inl (x, e) ↦ rw e h
      | inr (rows, e) ↦
          rw e (update_where-IsCatalogue fails b.id without_local run.rows (λ x. refl) h e)
    ]
repair-IsCatalogue fails b (repointed c) run h =
    elim (Result-cases (update_local_location fails b.id c run.rows)) [
      | inl (x, e) ↦ rw e h
      | inr (rows, e) ↦
          rw e (update_where-IsCatalogue fails b.id (with_local c) run.rows (λ x. refl) h e)
    ]

pub unless_failed-rows :
    (P : List BackupRecord → Type 0) (stepped : Option BackupError × Repair)
    (rest : Repair → Option BackupError × Repair)
    → P stepped.1.rows
    → ((run : Repair) → P run.rows → P (rest run).1.rows)
    → P (unless_failed stepped rest).1.rows
unless_failed-rows P (some e, run) rest h keeps = h
unless_failed-rows P (none, run) rest h keeps = keeps run h

pub repair_loop-IsCatalogue :
    (fails : ℕ → Bool) (dir : String) (disk : Disk) (rs : List BackupRecord) (run : Repair)
    → IsCatalogue run.rows
    → IsCatalogue (repair_loop fails dir disk rs run).1.rows
unfolding repair_loop
repair_loop-IsCatalogue fails dir disk [] run h = h
repair_loop-IsCatalogue fails dir disk (b ∷ rs) run h =
    unless_failed-rows IsCatalogue (repair fails b (fate dir disk b) run) _
      (repair-IsCatalogue fails b (fate dir disk b) run h)
      (λ after k. repair_loop-IsCatalogue fails dir disk rs after k)
