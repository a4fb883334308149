-- ===== src/Backups/Offsite.antt =====
-- Which operations of the store can lose track of an archive that is offsite.
use oddk.Base.{
  ℕ, ◌≡◌, ◌≢◌, refl, sym, ap, subst, ◌∙◌, inl, inr, Bool, true, false, not, ◌&&◌, ◌||◌, some, List,
  [], ◌∷◌, ◌++◌, map, filter, any, ◌==◌, ==→eq, ok, ok-injective, arith, Bool-cases, All, All-of,
  All-at, Distinct, Distinct-injective, Memᴰ, any-found, all, some-injective, if◌then◌else◌,
}
use oddk.Disk.{Disk}
use oddk.Backups.{
  BackupRecord, Host, Faults, valid, drop_row, sweep, is_orphan, cleanup_orphaned_records,
}
use oddk.Backups.Copies.{
  located, update_where, record_backup, delete_record, find_backup, clear_local_location,
  clear_remote_location, forget_local_copy, forget_remote_copy, without_local, without_remote,
}
use oddk.Backups.Sweep.{
  checked-backup, lost, touch_all, touch_all-id, touch_all-locations, scan-rows, scan-orphaned,
  orphaned-lost,
}
use oddk.Backups.Listing.{Own-selection}

module _ (k : ℕ) where
  abbrev is_offsite : BackupRecord → Bool
  is_offsite b = b.id == k && valid b.remote_location

  -- A row of the id has a remote location.
  abbrev pub IsOffsite : List BackupRecord → Type 0
  IsOffsite rows = any is_offsite rows ≡ true

  map-IsOffsite :
      (f : BackupRecord → BackupRecord) (rows : List BackupRecord)
      → ((b : BackupRecord) → is_offsite b ≡ true → is_offsite (f b) ≡ true)
      → IsOffsite rows
      → IsOffsite (map f rows)
  map-IsOffsite f [] keeps h = h
  map-IsOffsite f (b ∷ rows) keeps h = elim (Bool-cases (is_offsite b)) [
    | inl o ↦ rw (keeps b o) refl
    | inr o ↦ ground (arith, map-IsOffsite f rows keeps (rw o at h))
  ]

  filter-IsOffsite :
      (p : BackupRecord → Bool) (rows : List BackupRecord)
      → All (λ b. is_offsite b ≡ true → p b ≡ true) rows
      → IsOffsite rows
      → IsOffsite (filter p rows)
  filter-IsOffsite p [] keeps h = h
  filter-IsOffsite p (b ∷ rows) keeps h = ground (arith, filter-IsOffsite p rows keeps.1)

  append-IsOffsite :
      (rows : List BackupRecord) (b : BackupRecord) → IsOffsite rows → IsOffsite (rows ++ b ∷ [])
  append-IsOffsite [] b h = ground arith
  append-IsOffsite (r ∷ rows) b h = ground (arith, append-IsOffsite rows b)

  pub record_backup-IsOffsite :
      (next_id : ℕ) (b : BackupRecord) (rows : List BackupRecord) {rows' : List BackupRecord}
      → record_backup false next_id b rows ≡ ok rows'
      → IsOffsite rows
      → IsOffsite rows'
  unfolding record_backup
  record_backup-IsOffsite next_id b rows e h = elim (Bool-cases (located b)) [
    | inl l ↦ subst IsOffsite (ok-injective (rw l at e)) (append-IsOffsite rows _ h)
    | inr l ↦ absurd (ground arith)
  ]

  pub update_where-IsOffsite :
      (fails : ℕ → Bool) (j : ℕ) (f : BackupRecord → BackupRecord) (rows : List BackupRecord)
      {rows' : List BackupRecord}
      → ((b : BackupRecord) → (b.id == j) ≡ true → is_offsite b ≡ true → is_offsite (f b) ≡ true)
      → update_where fails j f rows ≡ ok rows'
      → IsOffsite rows
      → IsOffsite rows'
  unfolding update_where
  update_where-IsOffsite fails j f rows keeps e h =
      elim (Bool-cases (fails j || not (all (λ b. not (b.id == j) || located (f b)) rows))) [
        | inl r ↦ absurd (ground arith)
        | inr r ↦ subst IsOffsite (ok-injective (rw r at e)) (
            map-IsOffsite (λ b. if b.id == j then f b else b) rows
              (λ b o. elim (Bool-cases (b.id == j)) [ inl s ↦ rw s (keeps b s o) | inr s ↦ rw s o ])
              h)
      ]

  pub delete_record-IsOffsite :
      (fails : ℕ → Bool) (j : ℕ) (rows : List BackupRecord) {rows' : List BackupRecord}
      → All (λ b. is_offsite b ≡ true → (b.id == j) ≡ false) rows
      → delete_record fails j rows ≡ ok rows'
      → IsOffsite rows
      → IsOffsite rows'
  unfolding delete_record
  delete_record-IsOffsite fails j rows others e h = elim (Bool-cases (fails j)) [
    | inl f ↦ absurd (ground arith)
    | inr f ↦ subst IsOffsite (ok-injective (rw f at e)) (
        filter-IsOffsite (λ b. not (b.id == j)) rows
          (All-of _ rows (λ b m o. rw (All-at _ rows others m o) refl)) h)
  ]

  cleanup-IsOffsite :
      (delete_fails : ℕ → Bool) (ks : List ℕ) (rows : List BackupRecord)
      → any (λ j. k == j) ks ≡ false
      → IsOffsite rows
      → IsOffsite (cleanup_orphaned_records delete_fails ks rows)
  unfolding cleanup_orphaned_records
  cleanup-IsOffsite delete_fails [] rows others h = h
  cleanup-IsOffsite delete_fails (j ∷ ks) rows others h = elim (Bool-cases (delete_fails j)) [
    | inl e ↦ rw e h
    | inr e ↦ rw e (
        cleanup-IsOffsite delete_fails ks (drop_row j rows) (ground arith)
          (filter-IsOffsite (λ b. not (b.id == j)) rows (All-of _ rows (λ b m o. ground arith)) h))
  ]

  -- A row with a remote location is no orphan.
  lost-offsite :
      (faults : Faults) (host : Host) (disk : Disk) (b : BackupRecord)
      → is_offsite b ≡ true
      → lost faults host disk b ≡ false
  unfolding is_orphan
  lost-offsite faults host disk b o = rw (checked-backup faults host disk b) (ground arith)

  pub sweep-IsOffsite :
      (faults : Faults) (host : Host) (disk : Disk) (xs rows : List BackupRecord)
      → Distinct (λ (r : BackupRecord). r.id) rows
      → ((x : BackupRecord) → Memᴰ x xs → Memᴰ x rows)
      → IsOffsite rows
      → IsOffsite (sweep faults host disk xs rows).1
  unfolding sweep
  sweep-IsOffsite faults host disk xs rows unique from h =
      let (b, m, o) = any-found is_offsite rows h in
      let own = Own-selection rows xs unique from m in
      let same : b.id ≡ k = ground arith in
      let ids = map (λ (x : BackupRecord). x.id) (filter (lost faults host disk) xs) in
      let kept = orphaned-lost faults host disk xs b own in
      let others : any (λ j. k == j) ids ≡ false =
        subst (λ (n : ℕ). any (λ j. n == j) ids ≡ false) same
          (kept ∙ ground (arith, lost-offsite faults host disk b o)) in
      rw (scan-rows faults host disk xs rows, scan-orphaned faults host disk xs rows)
        (cleanup-IsOffsite faults.delete_fails ids (map (touch_all faults host disk xs) rows) others
          (map-IsOffsite (touch_all faults host disk xs) rows
            (λ c p.
              rw (touch_all-id faults host disk xs c, (touch_all-locations faults host disk xs c).1)
                p)
            h))

  -- The row that an operation on a record reads.
  pub find_backup-mem :
      (j : ℕ) (rows : List BackupRecord) {b : BackupRecord}
      → find_backup j rows ≡ some b
      → Memᴰ b rows × (b.id ≡ j)
  find_backup-mem j [] e = absurd (ground arith)
  find_backup-mem j (r ∷ rows) {b} e = elim (Bool-cases (r.id == j)) [
    | inl s ↦
        let same : r ≡ b = some-injective (rw s at e) in
        (Memᴰ.head (sym same), ap (λ (x : BackupRecord). x.id) (sym same) ∙ ==→eq r.id j s)
    | inr s ↦ let (m, i) = find_backup-mem j rows {b = b} (rw s at e) in (Memᴰ.tail m, i)
  ]

  -- Forgetting a copy of a row of the table: the local one of any row, the remote one of another id.
  pub forget_local_copy-IsOffsite :
      (faults : Faults) (b : BackupRecord) (rows : List BackupRecord) {rows' : List BackupRecord}
      → Distinct (λ (r : BackupRecord). r.id) rows
      → Memᴰ b rows
      → forget_local_copy faults b rows ≡ ok rows'
      → IsOffsite rows
      → IsOffsite rows'
  unfolding forget_local_copy clear_local_location
  forget_local_copy-IsOffsite faults b rows unique m e h =
      elim (Bool-cases (valid b.remote_location)) [
        | inl v ↦
            update_where-IsOffsite faults.update_fails b.id without_local rows (λ c s o. o)
              (rw v at e) h
        | inr v ↦
            delete_record-IsOffsite faults.delete_fails b.id rows
              (All-of _ rows (λ c n o. elim (Bool-cases (c.id == b.id)) [
                | inr s ↦ s
                | inl s ↦
                    let same : c ≡ b =
                      Distinct-injective (λ (r : BackupRecord). r.id) rows unique n m
                        (==→eq c.id b.id s) in
                    let gone : valid c.remote_location ≡ false =
                      ap (λ (x : BackupRecord). valid x.remote_location) same ∙ v in
                    absurd (ground arith)
              ]))
              (rw v at e) h
      ]

  pub forget_remote_copy-IsOffsite :
      (faults : Faults) (b : BackupRecord) (rows : List BackupRecord) {rows' : List BackupRecord}
      → b.id ≢ k
      → forget_remote_copy faults b rows ≡ ok rows'
      → IsOffsite rows
      → IsOffsite rows'
  unfolding forget_remote_copy clear_remote_location
  forget_remote_copy-IsOffsite faults b rows other e h =
      elim (Bool-cases (valid b.local_location)) [
        | inl v ↦
            update_where-IsOffsite faults.update_fails b.id without_remote rows
              (λ c s o. absurd (ground arith)) (rw v at e) h
        | inr v ↦
            delete_record-IsOffsite faults.delete_fails b.id rows
              (All-of _ rows (λ c n o. ground arith)) (rw v at e) h
      ]
