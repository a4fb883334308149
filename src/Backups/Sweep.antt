-- ===== src/Backups/Sweep.antt =====
-- What a listing of backups answers, and what it does to the catalogue.
use oddk.Base.{
  ℕ, ◌≡◌, refl, sym, ap, ◌∙◌, inl, inr, Bool, true, false, not, ◌&&◌, List, [], ◌∷◌, map, filter,
  any, ◌==◌, ==→eq, eq→==, if◌then◌else◌, arith, Bool-cases, All, map-map, map-cong, map-id,
  Option-cases, filter-filter, filter-cong, filter-true,
}
use oddk.Disk.{Disk}
use oddk.Backups.{
  BackupRecord, Checked, Host, Faults, validate_backup_file, is_orphan, resized, drop_row,
  with_actual_size, update_backup_size, scan, cleanup_orphaned_records,
}

module _ (faults : Faults) (host : Host) (disk : Disk) where
  abbrev pub checked : BackupRecord → Checked
  checked = validate_backup_file host disk

  pub checked-backup : (b : BackupRecord) → (checked b).backup ≡ b
  unfolding validate_backup_file
  checked-backup b = elim (Option-cases b.local_location) [
    | inl e ↦ rw e refl
    | inr (location, e) ↦ rw e refl
  ]

  -- What the loop does for `c` to the row `b`.
  touch : Checked → BackupRecord → BackupRecord
  touch c b =
      if resized faults.update_fails c && (b.id == c.backup.id)
      then record b { size = c.actual_size }
      else b

  update_backup_size-touch :
      (c : Checked) (rows : List BackupRecord)
      → update_backup_size faults.update_fails c rows ≡ map (touch c) rows
  unfolding update_backup_size touch
  update_backup_size-touch c rows = elim (Bool-cases (resized faults.update_fails c)) [
    | inl e ↦ rw e (map-cong _ (touch c) rows (λ b. rw e refl))
    | inr e ↦ rw e (sym (map-id (touch c) rows (λ b. rw e refl)))
  ]

  -- What the loop does to the row `b` for all of `xs`.
  pub touch_all : List BackupRecord → BackupRecord → BackupRecord
  touch_all [] b = b
  touch_all (x ∷ xs) b = touch_all xs (if is_orphan (checked x) then b else touch (checked x) b)

  abbrev pub lost : BackupRecord → Bool
  lost b = is_orphan (checked b)

  -- The row as a listing leaves it, if it does.
  abbrev pub refreshed : BackupRecord → BackupRecord
  refreshed b =
      if resized faults.update_fails (checked b)
      then record b { size = (checked b).actual_size }
      else b

  pub scan-rows :
      (xs rows : List BackupRecord)
      → (scan faults.update_fails (map checked xs) rows).rows ≡ map (touch_all xs) rows
  unfolding scan touch_all
  scan-rows [] rows = sym (map-id _ rows (λ b. refl))
  scan-rows (x ∷ xs) rows = elim (Bool-cases (is_orphan (checked x))) [
    | inl e ↦ rw e (scan-rows xs rows ∙ map-cong _ _ rows (λ b. rw e refl))
    | inr e ↦ rw e (
        scan-rows xs (update_backup_size faults.update_fails (checked x) rows)
        ∙ ap (map (touch_all xs)) (update_backup_size-touch (checked x) rows)
        ∙ map-map (touch_all xs) (touch (checked x)) rows
        ∙ map-cong _ _ rows (λ b. rw e refl))
  ]

  pub scan-orphaned :
      (xs rows : List BackupRecord)
      → (scan faults.update_fails (map checked xs) rows).orphaned
        ≡ map (λ (b : BackupRecord). b.id) (filter lost xs)
  unfolding scan
  scan-orphaned [] rows = refl
  scan-orphaned (x ∷ xs) rows = elim (Bool-cases (is_orphan (checked x))) [
    | inl e ↦ rw (e, checked-backup x) (ap (λ ks. x.id ∷ ks) (scan-orphaned xs rows))
    | inr e ↦ rw e (scan-orphaned xs _)
  ]

  pub scan-valid :
      (xs rows : List BackupRecord)
      → (scan faults.update_fails (map checked xs) rows).valid_backups
        ≡ map
            (λ b. with_actual_size faults.update_fails (checked b))
            (filter (λ b. not (lost b)) xs)
  unfolding scan
  scan-valid [] rows = refl
  scan-valid (x ∷ xs) rows = elim (Bool-cases (is_orphan (checked x))) [
    | inl e ↦ rw e (scan-valid xs rows)
    | inr e ↦
        rw e (ap (λ cs. with_actual_size faults.update_fails (checked x) ∷ cs) (scan-valid xs _))
  ]

pub cleanup_orphaned_records-filter :
    (delete_fails : ℕ → Bool) (ks : List ℕ) (rows : List BackupRecord)
    → ((k : ℕ) → delete_fails k ≡ false)
    → cleanup_orphaned_records delete_fails ks rows
      ≡ filter (λ b. not (any (λ k. b.id == k) ks)) rows
unfolding cleanup_orphaned_records
cleanup_orphaned_records-filter delete_fails [] rows h = sym (filter-true rows)
cleanup_orphaned_records-filter delete_fails (k ∷ ks) rows h = rw (h k) (
    cleanup_orphaned_records-filter delete_fails ks (drop_row k rows) h
    ∙ filter-filter (λ b. not (any (λ k. b.id == k) ks)) (λ b. not (b.id == k)) rows
    ∙ filter-cong _ (λ b. not (any (λ k. b.id == k) (k ∷ ks))) rows (λ b. ground arith))

module _ (faults : Faults) (host : Host) (disk : Disk) where
  pub touch_all-id :
      (xs : List BackupRecord) (b : BackupRecord) → (touch_all faults host disk xs b).id ≡ b.id
  unfolding touch_all touch
  touch_all-id [] b = refl
  touch_all-id (x ∷ xs) b = touch_all-id xs _ ∙ ground arith

  pub touch_all-locations :
      (xs : List BackupRecord) (b : BackupRecord)
      → ((touch_all faults host disk xs b).local_location ≡ b.local_location)
        × ((touch_all faults host disk xs b).remote_location ≡ b.remote_location)
  unfolding touch_all touch
  touch_all-locations [] b = (refl, refl)
  touch_all-locations (x ∷ xs) b =
      let rest = touch_all-locations xs _ in (rest.0 ∙ ground arith, rest.1 ∙ ground arith)

  -- The rows of the listing with the id of `b` are `b`.
  abbrev pub Own : BackupRecord → List BackupRecord → Type 0
  Own b = All (λ x. x.id ≡ b.id → x ≡ b)

  abbrev pub has_id : BackupRecord → List BackupRecord → Bool
  has_id b xs = any (λ x. b.id == x.id) xs

  touch-own :
      (b : BackupRecord)
      → (touch faults host disk (checked faults host disk b) b ≡ refreshed faults host disk b)
        × (touch faults host disk (checked faults host disk b) (refreshed faults host disk b)
            ≡ refreshed faults host disk b)
  unfolding touch
  touch-own b =
      let same = checked-backup faults host disk b in
      let own : (b.id == b.id) ≡ true = eq→== refl in
      elim (Bool-cases (resized faults.update_fails (checked faults host disk b))) [
        | inl e ↦ rw (e, same, own) (refl, refl)
        | inr e ↦ rw e (refl, refl)
      ]

  touch-other :
      (c : Checked) (b : BackupRecord)
      → (b.id == c.backup.id) ≡ false
      → touch faults host disk c b ≡ b
  unfolding touch
  touch-other c b h = ground arith

  abbrev step_of : BackupRecord → BackupRecord → BackupRecord
  step_of x b =
      if is_orphan (checked faults host disk x)
      then b
      else touch faults host disk (checked faults host disk x) b

  -- A row that no listed row stands for is left alone, and a refreshed one stays.
  step_of-other : (x b : BackupRecord) → (b.id == x.id) ≡ false → step_of x b ≡ b
  step_of-other x b h = elim (Bool-cases (is_orphan (checked faults host disk x))) [
    | inl e ↦ rw e refl
    | inr e ↦
        rw e (touch-other (checked faults host disk x) b (rw (checked-backup faults host disk x) h))
  ]

  refreshed-id : (b : BackupRecord) → (refreshed faults host disk b).id ≡ b.id
  refreshed-id b = ground arith

  step_of-refreshed :
      (b : BackupRecord) → step_of b (refreshed faults host disk b) ≡ refreshed faults host disk b
  step_of-refreshed b = elim (Bool-cases (lost faults host disk b)) [
    | inl e ↦ rw e refl
    | inr e ↦ rw e (touch-own b).1
  ]

  stands_for :
      (x b : BackupRecord) (xs : List BackupRecord) → Own b (x ∷ xs) → (b.id == x.id) ≡ true → x ≡ b
  stands_for x b xs own e = own.0 (sym (==→eq b.id x.id e))

  touch_all-refreshed :
      (xs : List BackupRecord) (b : BackupRecord)
      → Own b xs
      → touch_all faults host disk xs (refreshed faults host disk b) ≡ refreshed faults host disk b
  unfolding touch_all
  touch_all-refreshed [] b own = refl
  touch_all-refreshed (x ∷ xs) b own = elim (Bool-cases (b.id == x.id)) [
    | inl e ↦ rw (stands_for x b xs own e, step_of-refreshed b) (touch_all-refreshed xs b own.1)
    | inr e ↦
        rw (step_of-other x (refreshed faults host disk b) (rw (refreshed-id b) e))
          (touch_all-refreshed xs b own.1)
  ]

  -- Over rows that stand for themselves, a row of the listing is refreshed unless it is lost.
  pub touch_all-refreshes :
      (xs : List BackupRecord) (b : BackupRecord)
      → Own b xs
      → touch_all faults host disk xs b
        ≡ (if has_id b xs && not (lost faults host disk b) then refreshed faults host disk b else b)
  unfolding touch_all
  touch_all-refreshes [] b own = refl
  touch_all-refreshes (x ∷ xs) b own = elim (Bool-cases (b.id == x.id)) [
    | inl e ↦
        rw (stands_for x b xs own e, eq→== {a = b.id} refl)
          (elim (Bool-cases (lost faults host disk b)) [
            | inl o ↦ rw o (touch_all-refreshes xs b own.1 ∙ rw o (ground arith))
            | inr o ↦ rw (o, (touch-own b).0) (touch_all-refreshed xs b own.1)
          ])
    | inr e ↦ rw (step_of-other x b e, e) (touch_all-refreshes xs b own.1)
  ]

  -- The orphans' ids hold that of a row exactly if it is listed and lost.
  pub orphaned-lost :
      (xs : List BackupRecord) (b : BackupRecord)
      → Own b xs
      → any (λ k. b.id == k) (map (λ (x : BackupRecord). x.id) (filter (lost faults host disk) xs))
        ≡ has_id b xs && lost faults host disk b
  orphaned-lost [] b own = refl
  orphaned-lost (x ∷ xs) b own = elim (Bool-cases (b.id == x.id)) [
    | inl e ↦
        rw (stands_for x b xs own e, eq→== {a = b.id} refl)
          (elim (Bool-cases (lost faults host disk b)) [
            | inl o ↦ rw o (ground arith)
            | inr o ↦ rw o (orphaned-lost xs b own.1 ∙ rw o (ground arith))
          ])
    | inr e ↦ elim (Bool-cases (lost faults host disk x)) [
      | inl o ↦ rw (o, e) (orphaned-lost xs b own.1)
      | inr o ↦ rw (o, e) (orphaned-lost xs b own.1)
    ]
  ]
