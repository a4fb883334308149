-- ===== src/Backups/Listing.antt =====
-- `ListBackups` and `ListAllBackups`, answer and catalogue.
use oddk.Base.{
  ℕ, ◌≡◌, refl, sym, ap, ap₂, map-cong, filter-cong, ◌∙◌, inl, inr, Bool, true, false, not, ◌&&◌,
  List, map, filter, any, String, str_eq, ◌==◌, ==→eq, eq→==, if◌then◌else◌, ok, arith, Bool-cases,
  All, All-of, All-at, Distinct, Distinct-injective, Memᴰ, filter-map, any-mem, any-none,
  mem-filter, filter-mem,
}
use oddk.Disk.{Disk}
use oddk.Newest.Order.{newest_by-mem, mem-newest_by}
use oddk.Backups.{
  BackupRecord, Checked, Host, Faults, sweep, with_actual_size, newest_first, of_instance,
  list_backups, list_all_backups,
}
use oddk.Backups.Described.{
  is_gone, shown, resized_to_file, lost-is_gone, refreshed-resized, with_actual_size-shown,
}
use oddk.Backups.Sweep.{
  checked, lost, refreshed, Own, has_id, touch_all, touch_all-refreshes, touch_all-id,
  orphaned-lost, scan-rows, scan-orphaned, scan-valid, cleanup_orphaned_records-filter,
}

-- The rows of a table with unique ids stand for themselves in every selection from it.
pub Own-selection :
    (rows xs : List BackupRecord) {b : BackupRecord}
    → Distinct (λ (r : BackupRecord). r.id) rows
    → ((x : BackupRecord) → Memᴰ x xs → Memᴰ x rows)
    → Memᴰ b rows
    → All (λ x. x.id ≡ b.id → x ≡ b) xs
Own-selection rows xs h from m =
    All-of _ xs (λ x n e. Distinct-injective (λ (r : BackupRecord). r.id) rows h (from x n) m e)

module _ (faults : Faults) (host : Host) (disk : Disk) (rows : List BackupRecord) where
  -- The answer of a listing that selects `xs`.
  abbrev pub answer : List BackupRecord → List Checked
  answer xs =
      map (λ b. with_actual_size faults.update_fails (checked faults host disk b))
        (filter (λ b. not (lost faults host disk b)) xs)

  -- The table after a listing of the rows that pass the test.
  abbrev pub swept : (BackupRecord → Bool) → List BackupRecord
  swept selected =
      map (λ b. if selected b then refreshed faults host disk b else b)
        (filter (λ b. not (selected b && lost faults host disk b)) rows)

  -- One row, before the orphans go.
  swept_row :
      (selected : BackupRecord → Bool) (xs : List BackupRecord) (b : BackupRecord)
      → Own faults host disk b xs
      → has_id faults host disk b xs ≡ selected b
      → (not (
            any
              (λ k. (touch_all faults host disk xs b).id == k)
              (map (λ (x : BackupRecord). x.id) (filter (lost faults host disk) xs)))
          ≡ not (selected b && lost faults host disk b))
        × (not (selected b && lost faults host disk b) ≡ true
            → touch_all faults host disk xs b
              ≡ (if selected b then refreshed faults host disk b else b))
  swept_row selected xs b own same = (
    rw (touch_all-id faults host disk xs b, orphaned-lost faults host disk xs b own, same) refl,
    λ stays. touch_all-refreshes faults host disk xs b own ∙ rw same (ground arith),
  )

  has_id-selected :
      (selected : BackupRecord → Bool) (xs : List BackupRecord) (b : BackupRecord)
      → Own faults host disk b xs
      → ((x : BackupRecord) → Memᴰ x xs → selected x ≡ true)
      → (selected b ≡ true → Memᴰ b xs)
      → has_id faults host disk b xs ≡ selected b
  has_id-selected selected xs b own from to = elim (Bool-cases (selected b)) [
    | inl s ↦ any-mem (λ (x : BackupRecord). b.id == x.id) xs (to s) (eq→== {a = b.id} refl) ∙ sym s
    | inr s ↦
        any-none (λ (x : BackupRecord). b.id == x.id) xs
          (All-of _ xs (λ x m. elim (Bool-cases (b.id == x.id)) [
            | inr e ↦ e
            | inl e ↦
                let same : x ≡ b = All-at _ xs own m (sym (==→eq b.id x.id e)) in
                absurd (ground (arith, ap selected same, from x m))
          ]))
        ∙ sym s
  ]

  sweep-swept :
      (selected : BackupRecord → Bool) (xs : List BackupRecord)
      → ((k : ℕ) → faults.delete_fails k ≡ false)
      → Distinct (λ (r : BackupRecord). r.id) rows
      → ((x : BackupRecord) → Memᴰ x xs → Memᴰ x rows × (selected x ≡ true))
      → ((x : BackupRecord) → Memᴰ x rows → selected x ≡ true → Memᴰ x xs)
      → sweep faults host disk xs rows ≡ (answer xs, swept selected)
  unfolding sweep
  sweep-swept selected xs accepts unique from to =
      let ids = map (λ (x : BackupRecord). x.id) (filter (lost faults host disk) xs) in
      let own : (b : BackupRecord) → Memᴰ b rows → Own faults host disk b xs =
        λ b m. Own-selection rows xs unique (λ x n. (from x n).0) m in
      rw
        (
          scan-valid faults host disk xs rows,
          scan-orphaned faults host disk xs rows,
          scan-rows faults host disk xs rows,
          cleanup_orphaned_records-filter faults.delete_fails ids
              (map (touch_all faults host disk xs) rows) accepts,
        )
        (ap (λ (left : List BackupRecord). (answer xs, left))
          (filter-map (λ b. not (any (λ k. b.id == k) ids)) _ (touch_all faults host disk xs) _ rows
            (All-of _ rows (λ b m.
              swept_row selected xs b (own b m)
                (has_id-selected selected xs b (own b m) (λ x n. (from x n).1) (to b m))))))

  list_backups-swept :
      (name : String)
      → ((k : ℕ) → faults.delete_fails k ≡ false)
      → Distinct (λ (r : BackupRecord). r.id) rows
      → list_backups false faults host disk name rows
        ≡ ok (
          answer (newest_first (of_instance name rows)),
          swept (λ b. str_eq b.instance_name name),
        )
  unfolding list_backups
  list_backups-swept name accepts unique = ap ok (
      sweep-swept (λ b. str_eq b.instance_name name) (newest_first (of_instance name rows)) accepts
        unique
        (λ x m.
          filter-mem (λ b. str_eq b.instance_name name) rows
            (newest_by-mem (λ b. b.timestamp) (of_instance name rows) m))
        (λ x m s.
          mem-newest_by (λ b. b.timestamp) (of_instance name rows)
            (mem-filter (λ b. str_eq b.instance_name name) rows m s)))

  -- On a catalogue with unique ids that can be read, and where no deletion is refused, a listing of
  -- an instance answers its rows that are not gone, newest first. A row is gone if it has no remote
  -- location and its local file is not found, or if it has no location and is completed. An answer
  -- shows whether the local file is found, and its size, 0 if not; the record's size is that of a
  -- file that is found, unless the update is refused. The table loses exactly the instance's rows
  -- that are gone, its other rows have the size that is answered, and the rows of other instances
  -- stay as they are.
  pub list_backups_lem :
      (name : String)
      → ((k : ℕ) → faults.delete_fails k ≡ false)
      → Distinct (λ (r : BackupRecord). r.id) rows
      → list_backups false faults host disk name rows
        ≡ ok (
          map
              (shown host disk faults)
              (filter (λ b. not (is_gone host disk b)) (newest_first (of_instance name rows))),
          map
              (λ b. if str_eq b.instance_name name then resized_to_file host disk faults b else b)
              (filter (λ b. not (str_eq b.instance_name name && is_gone host disk b)) rows),
        )
  list_backups_lem name accepts unique =
      let kept = λ (b : BackupRecord). not (is_gone host disk b) in
      let ours = λ (b : BackupRecord). str_eq b.instance_name name in
      list_backups-swept name accepts unique
      ∙ ap₂ (λ (xs : List Checked) (ys : List BackupRecord). ok (xs, ys))
          (map-cong _ (shown host disk faults) _ (λ b. with_actual_size-shown host disk faults b)
            ∙ ap (map (shown host disk faults)) (
                filter-cong _ kept (newest_first (of_instance name rows))
                  (λ b. rw (lost-is_gone host disk faults b) refl)))
          (map-cong _ (λ b. if ours b then resized_to_file host disk faults b else b) _
              (λ b. rw (refreshed-resized host disk faults b) refl)
            ∙ ap (map (λ b. if ours b then resized_to_file host disk faults b else b)) (
                filter-cong _ (λ b. not (ours b && is_gone host disk b)) rows
                  (λ b. rw (lost-is_gone host disk faults b) refl)))

  pub list_all_backups_lem :
      ((k : ℕ) → faults.delete_fails k ≡ false)
      → Distinct (λ (r : BackupRecord). r.id) rows
      → list_all_backups false faults host disk rows
        ≡ ok (answer (newest_first rows), swept (λ b. true))
  unfolding list_all_backups
  list_all_backups_lem accepts unique = ap ok (
      sweep-swept (λ b. true) (newest_first rows) accepts unique
        (λ x m. (newest_by-mem (λ b. b.timestamp) rows m, refl))
        (λ x m s. mem-newest_by (λ b. b.timestamp) rows m))
