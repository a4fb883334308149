-- ===== src/BackupCleanup/Local.antt =====
-- What one turn of the local cleanup does to the disk and to the catalogue.
use oddk.Base.{
  ℕ, ◌≡◌, ◌≢◌, refl, sym, ap, ◌∙◌, subst, inl, inr, ◌⊎◌, Bool, true, false, not, Option, none, some,
  List, [], ◌∷◌, all, ◌||◌, String, str_eq, str_eq→eq, ◌==◌, ==→eq, if◌then◌else◌, Result, ok, err,
  arith, Bool-cases, Option-cases, All, All-filter, All-map, Memᴰ, some-injective, ok-injective,
  eq→str_eq, ne→str_eq,
}
use oddk.Disk.{Disk, resolve, remove_file}
use oddk.Backups.{BackupRecord, Checked, BackupError, Host, Faults, valid, drop_row, update_row}
use oddk.Backups.Sweep.{checked-backup}
use oddk.Backups.Schema.{after_removal-ok}
use oddk.Backups.Copies.{
  located, find_backup, delete_record, clear_local_location, update_where, get_backup_by_id,
  forget_local_copy, remove_local_copy, remove_read_local, remove_found_local, after_removal,
  without_local,
}
use oddk.BackupCleanup.{Limits, Run, counted, remove_aged}

-- The file of a record.
abbrev pub file_at : Host → Option String → Option String
file_at host none = none
file_at host (some location) = some (resolve host.data_dir location)

abbrev pub file_of : Host → BackupRecord → Option String
file_of host b = file_at host b.local_location

remove_file-other :
    (refused : String → Bool) (disk : Disk) (path p : String)
    → p ≢ path
    → (remove_file refused disk path).1 p ≡ disk p
unfolding remove_file
remove_file-other refused disk path p h = ground (arith, ne→str_eq path p (λ e. h (sym e)))

-- The row of the table stands for the listed record, as far as it has a local copy.
abbrev pub Stands : BackupRecord → BackupRecord → Type 0
Stands c b = b.id ≡ c.id → (b.local_location ≡ none) ⊎ (b.local_location ≡ c.local_location)

abbrev pub Agrees : BackupRecord → List BackupRecord → Type 0
Agrees c = All (Stands c)

without_local-Stands :
    (c b : BackupRecord) (k : ℕ) → Stands c b → Stands c (if b.id == k then without_local b else b)
without_local-Stands c b k h = elim (Bool-cases (b.id == k)) [
  | inl e ↦ rw e (λ same. inl refl)
  | inr e ↦ rw e h
]

module _ (k : ℕ) where
  find_backup-mem :
      (rows : List BackupRecord) {b : BackupRecord}
      → find_backup k rows ≡ some b
      → Memᴰ b rows × (b.id ≡ k)
  find_backup-mem [] e = absurd (ground arith)
  find_backup-mem (x ∷ rows) {b} e = elim (Bool-cases (x.id == k)) [
    | inl t ↦
        let same = some-injective (rw t at e) in
        (Memᴰ.head (sym same), ap (λ (r : BackupRecord). r.id) (sym same) ∙ ==→eq x.id k t)
    | inr t ↦ let (m, i) = find_backup-mem rows (rw t at e) in (Memᴰ.tail m, i)
  ]

  get_backup_by_id-mem :
      (faults : Faults) (host : Host) (disk : Disk) (rows : List BackupRecord) {c : Checked}
      → get_backup_by_id faults.read_fails host disk k rows ≡ ok c
      → Memᴰ c.backup rows × (c.backup.id ≡ k)
  unfolding get_backup_by_id
  get_backup_by_id-mem faults host disk rows {c} e = elim (Bool-cases (faults.read_fails k)) [
    | inl f ↦ absurd (ground arith)
    | inr f ↦ elim (Option-cases (find_backup k rows)) [
      | inl n ↦ absurd (ground arith)
      | inr (b, n) ↦
          let same : b ≡ c.backup =
            sym (checked-backup faults host disk b)
            ∙ ap (λ (c : Checked). c.backup) (ok-injective (rw (f, n) at e)) in
          subst (λ (r : BackupRecord). Memᴰ r rows × (r.id ≡ k)) same (find_backup-mem rows n)
    ]
  ]

-- A result table comes from the old one by the loss of a row or of a local location.
pub data Shrunk (rows : List BackupRecord) : List BackupRecord → Type 0 where
  dropped : (k : ℕ) → Shrunk rows (drop_row k rows)
  cleared : (k : ℕ) → Shrunk rows (update_row k without_local rows)

Shrunk-Agrees :
    (c : BackupRecord) {rows rows' : List BackupRecord}
    → Shrunk rows rows'
    → Agrees c rows
    → Agrees c rows'
Shrunk-Agrees c {rows} (Shrunk.dropped k) h = All-filter (Stands c) _ rows h
Shrunk-Agrees c {rows} (Shrunk.cleared k) h =
    All-map (Stands c) _ rows (λ b s. without_local-Stands c b k s) h

update_where-Shrunk :
    (fails : ℕ → Bool) (k : ℕ) (rows : List BackupRecord) {rows' : List BackupRecord}
    → update_where fails k without_local rows ≡ ok rows'
    → Shrunk rows rows'
unfolding update_where
update_where-Shrunk fails k rows e =
    elim (Bool-cases
      (fails k || not (all (λ b. not (b.id == k) || located (without_local b)) rows))) [
        | inl r ↦ absurd (ground arith)
        | inr r ↦ subst (Shrunk rows) (ok-injective (rw r at e)) (Shrunk.cleared k)
      ]

forget_local_copy-Shrunk :
    (faults : Faults) (b : BackupRecord) (rows : List BackupRecord) {rows' : List BackupRecord}
    → forget_local_copy faults b rows ≡ ok rows'
    → Shrunk rows rows'
unfolding forget_local_copy delete_record clear_local_location
forget_local_copy-Shrunk faults b rows e = elim (Bool-cases (valid b.remote_location)) [
  | inl v ↦ update_where-Shrunk faults.update_fails b.id rows (rw v at e)
  | inr v ↦ elim (Bool-cases (faults.delete_fails b.id)) [
    | inl f ↦ absurd (ground arith)
    | inr f ↦ subst (Shrunk rows) (ok-injective (rw (v, f) at e)) (Shrunk.dropped b.id)
  ]
]

after_removal-disk :
    (gone : Bool × Disk) (rows : List BackupRecord)
    (forgotten : Result BackupError (List BackupRecord))
    → (after_removal gone rows forgotten).1 ≡ gone.1
after_removal-disk (true, disk) rows forgotten = refl
after_removal-disk (false, disk) rows forgotten = refl

module _ (limits : Limits) (name : String) (disk : Disk) (rows : List BackupRecord) where
  abbrev removal : Result BackupError Checked → Result BackupError (List BackupRecord) × Disk
  removal = remove_read_local limits.remove_refused limits.faults limits.host name disk rows

  removal-disk :
      (r : Result BackupError Checked) (p : String)
      → ((removal r).1 p ≡ disk p)
        ⊎ ((c : Checked) × (r ≡ ok c) × (file_of limits.host c.backup ≡ some p))
  removal-disk (err e) p = inl refl
  removal-disk (ok c) p = elim (Option-cases c.backup.local_location) [
    | inl n ↦ inl (rw n refl)
    | inr (location, n) ↦ elim (Bool-cases (str_eq c.backup.instance_name name)) [
      | inr s ↦ inl (rw (n, s) refl)
      | inl s ↦
          let path = resolve limits.host.data_dir location in
          elim (Bool-cases (str_eq path p)) [
            | inl e ↦ inr (c, refl, rw n (ap some (str_eq→eq path p e)))
            | inr e ↦ inl (
                rw (n, s)
                  (ap (λ (d : Disk). d p)
                      (after_removal-disk (remove_file limits.remove_refused disk path) rows _)
                    ∙ remove_file-other limits.remove_refused disk path p
                        (λ q. ground (arith, eq→str_eq path p (sym q)))))
          ]
    ]
  ]

  found-Shrunk :
      (b : BackupRecord) (location : Option String) {rows' : List BackupRecord}
      → (remove_found_local limits.remove_refused limits.faults limits.host name disk rows b
          location).0
        ≡ ok rows'
      → Shrunk rows rows'
  found-Shrunk b none h = absurd (ground arith)
  found-Shrunk b (some location) h = elim (Bool-cases (str_eq b.instance_name name)) [
    | inr s ↦ absurd (ground arith)
    | inl s ↦
        forget_local_copy-Shrunk limits.faults b rows
          (after_removal-ok _ rows (forget_local_copy limits.faults b rows) (rw s at h))
  ]

  removal-Shrunk :
      (r : Result BackupError Checked) {rows' : List BackupRecord}
      → (removal r).0 ≡ ok rows'
      → Shrunk rows rows'
  removal-Shrunk (err e) h = absurd (ground arith)
  removal-Shrunk (ok c) h = found-Shrunk c.backup c.backup.local_location h

counted-disk :
    (run : Run) (answer : Result BackupError (List BackupRecord) × Disk)
    → ((counted run answer).disk ≡ answer.1) × ((counted run answer).floor ≡ run.floor)
counted-disk run (ok rows, disk) = (refl, refl)
counted-disk run (err e, disk) = (refl, refl)

counted-rows :
    (P : List BackupRecord → Type 0) (run : Run)
    (answer : Result BackupError (List BackupRecord) × Disk)
    → P run.rows
    → ((rows' : List BackupRecord) → answer.0 ≡ ok rows' → P rows')
    → P (counted run answer).rows
counted-rows P run (ok rows, disk) h next = next rows refl
counted-rows P run (err e, disk) h next = h

module _ (limits : Limits) (b : BackupRecord) (run : Run) where
  pub remove_aged-floor : (remove_aged limits b run).floor ≡ run.floor
  unfolding remove_aged
  remove_aged-floor = (counted-disk run _).1

  -- Only the file of the table's row can go.
  pub remove_aged-disk :
      (p : String)
      → ((remove_aged limits b run).disk p ≡ run.disk p)
        ⊎ ((r : BackupRecord) × Memᴰ r run.rows × (r.id ≡ b.id) × (file_of limits.host r ≡ some p))
  unfolding remove_aged remove_local_copy
  remove_aged-disk p =
      let read = get_backup_by_id limits.faults.read_fails limits.host run.disk b.id run.rows in
      elim (removal-disk limits limits.instance_name run.disk run.rows read p) [
        | inl same ↦ inl (
            ap (λ (d : Disk). d p)
              (counted-disk run (removal limits limits.instance_name run.disk run.rows read)).0
            ∙ same)
        | inr (c, e, file) ↦
            let (m, i) = get_backup_by_id-mem b.id limits.faults limits.host run.disk run.rows e in
            inr (c.backup, m, i, file)
      ]

  pub remove_aged-Agrees :
      (c : BackupRecord) → Agrees c run.rows → Agrees c (remove_aged limits b run).rows
  unfolding remove_aged remove_local_copy
  remove_aged-Agrees c h =
      let read = get_backup_by_id limits.faults.read_fails limits.host run.disk b.id run.rows in
      counted-rows (Agrees c) run (removal limits limits.instance_name run.disk run.rows read) h
        (λ rows e.
          Shrunk-Agrees c (removal-Shrunk limits limits.instance_name run.disk run.rows read e) h)
