-- ===== src/BackupCleanup/LocalWhole.antt =====
-- What one pass of `runLocalCleanup` over an instance's backups promises.
use oddk.Base.{
  ℕ, ◌≤◌, ◌<◌, min, ◌≡◌, ◌≢◌, refl, sym, ap, ◌∙◌, inl, inr, ◌⊎◌, Bool, true, false, not, some, List,
  filter, count_of, String, ok, arith, All, All-at, All-of, All-image, Pairwise, Distinct,
  Distinct-injective, Memᴰ,
}
use oddk.Disk.{Disk, found}
use oddk.Retention.{new_retention_floor, days_before}
use oddk.Retention.Loop.{loop-floor}
use oddk.SnapshotCleanup.{Offsite, not_configured}
use oddk.SnapshotCleanup.Whole.{offsite-assumed}
use oddk.Backups.{valid, BackupRecord, Checked, Host, Faults, list_backups}
use oddk.Backups.Sweep.{lost, touch_all, touch_all-id, touch_all-locations}
use oddk.Backups.Answer.{
  selected, entry, listed, left, entry-row, selected-mem, listed-Pairwise, listed-All,
  list_backups-listed,
}
use oddk.Backups.Schema.{sweep-All}
use oddk.BackupCleanup.{
  Limits, Run, min_retained_backups, limits_at, start, local_loop, run_local_cleanup,
}
use oddk.BackupCleanup.Local.{file_at, file_of, Stands, Agrees}
use oddk.BackupCleanup.LocalFloor.{is_there}
use oddk.BackupCleanup.Justified.{NonEmpty, local_loop-Due}
use oddk.BackupCleanup.LocalLoop.{
  State, turns, turns-FillsFloor, local_loop-loop, Pairwise-AllApart,
}

-- No two rows name one file.
abbrev pub OwnFiles : Host → List BackupRecord → Type 0
OwnFiles host = Pairwise (λ (b : BackupRecord) (d : BackupRecord).
    (p : String) → file_of host b ≡ some p → file_of host d ≢ some p)

module _ (faults : Faults) (host : Host) (disk : Disk) (rows : List BackupRecord)
    (name : String) where
  listed-OtherFile :
      OwnFiles host rows
      → Pairwise
          (λ (c : Checked) (d : Checked).
            (p : String) → file_of host c.backup ≡ some p → file_of host d.backup ≢ some p)
          (listed faults host disk rows name)
  listed-OtherFile =
      listed-Pairwise faults host disk rows name _ _ (λ b d h p e f. h p f e)
        (λ b d h p e f. h p (sym (entry-file b) ∙ e) (sym (entry-file d) ∙ f))
    where
      entry-file :
          (b : BackupRecord)
          → file_of host (entry faults host disk rows name b).backup ≡ file_of host b
      entry-file b = ap (file_at host) (entry-row faults host disk rows name b).1

  listed-NonEmpty :
      All NonEmpty rows
      → All (λ (c : Checked). NonEmpty c.backup) (listed faults host disk rows name)
  listed-NonEmpty =
      listed-All faults host disk rows name NonEmpty (λ (c : Checked). NonEmpty c.backup)
        (λ b h e. h (sym (entry-row faults host disk rows name b).1 ∙ e))

  stands :
      (x b : BackupRecord)
      → Stands x b
      → Stands x (touch_all faults host disk (selected faults host disk rows name) b)
  stands x b h =
      let (here, _) =
        touch_all-locations faults host disk (selected faults host disk rows name) b in
      rw (touch_all-id faults host disk (selected faults host disk rows name) b, here) h

  listed-Agrees :
      Distinct (λ (b : BackupRecord). b.id) rows
      → All
          (λ (c : Checked). Agrees c.backup (left faults host disk rows name))
          (listed faults host disk rows name)
  listed-Agrees unique =
      All-image (entry faults host disk rows name)
        (λ (b : BackupRecord).
          Agrees ((entry faults host disk rows name) b).backup (left faults host disk rows name))
        _ (filter (λ b. not (lost faults host disk b)) (selected faults host disk rows name))
        (λ b h. h)
        (All-of _
          (filter (λ b. not (lost faults host disk b)) (selected faults host disk rows name))
          (λ x m.
            sweep-All (Stands (entry faults host disk rows name x).backup) faults host disk
              (selected faults host disk rows name) rows
              (λ b h. stands (entry faults host disk rows name x).backup b h)
              (All-of _ rows (λ b n same. inr (
                ap (λ (r : BackupRecord). r.local_location)
                  (Distinct-injective (λ (r : BackupRecord). r.id) rows unique n
                    (selected-mem faults host disk rows name m)
                    (same ∙ (entry-row faults host disk rows name x).0))
                ∙ sym (entry-row faults host disk rows name x).1)))))

module _ (name : String) (now days : ℕ) (offsite : Offsite) (host : Host) (faults : Faults)
    (refused : String → Bool) (disk : Disk) (rows : List BackupRecord) where
  abbrev limits : Limits
  limits = limits_at name now days offsite host faults refused

  abbrev backups : List Checked
  backups = listed faults host disk rows name

  abbrev final : Run
  final = local_loop limits backups (start disk (left faults host disk rows name))

  run_local_cleanup-final :
      run_local_cleanup name now (some days) false offsite host faults refused disk rows ≡ ok final
  unfolding run_local_cleanup
  run_local_cleanup-final = rw (list_backups-listed faults host disk rows name) refl

  begun : Distinct (λ (b : BackupRecord). b.id) rows → State limits backups
  begun unique = (
    start disk (left faults host disk rows name),
    listed-Agrees faults host disk rows name unique,
  )

  floor_holds :
      Distinct (λ (b : BackupRecord). b.id) rows
      → OwnFiles host rows
      → min min_retained_backups (count_of (is_there host disk) backups)
        ≤ count_of (is_there host final.disk) backups
  unfolding new_retention_floor begun
  floor_holds unique own = omega (
    arith,
    loop-floor (turns limits backups) (turns-FillsFloor limits backups) backups (begun unique) (
        Pairwise-AllApart limits backups backups (λ c m. m)
          (listed-OtherFile faults host disk rows name own)),
    ap (λ (s : Run). count_of (is_there host s.disk) backups)
        (local_loop-loop limits backups backups (begun unique)),
  )

  -- If ids are unique and no two rows name one file, then a local cleanup of an instance with a
  -- readable plan and catalogue returns no error, and of the n listed local copies that are not
  -- known to be gone before the loop, at least min(2, n) are such copies afterwards, whatever the
  -- file system and the database refuse on the way.
  pub run_local_cleanup-keeps :
      Distinct (λ (b : BackupRecord). b.id) rows
      → OwnFiles host rows
      → (found : List Checked) × (after : List BackupRecord) × (run : Run) × (list_backups false
            faults host disk name rows
          ≡ ok (found, after))
        × (run_local_cleanup name now (some days) false offsite host faults refused disk rows
            ≡ ok run)
        × (min min_retained_backups (count_of (is_there host disk) found)
            ≤ count_of (is_there host run.disk) found)
  run_local_cleanup-keeps unique own = (
    backups,
    left faults host disk rows name,
    final,
    list_backups-listed faults host disk rows name,
    run_local_cleanup-final,
    floor_holds unique own,
  )

  -- If ids are unique and no row has an empty location, then a file that was there when the local
  -- cleanup began is still there, or a listed backup names it that is older than the window and,
  -- unless offsite is known not to be configured, has a remote copy.
  pub run_local_cleanup-justified :
      (p : String)
      → Distinct (λ (b : BackupRecord). b.id) rows
      → All NonEmpty rows
      → disk p ≡ found
      → (backups : List Checked) × (after : List BackupRecord) × (run : Run) × (list_backups false
            faults host disk name rows
          ≡ ok (backups, after))
        × (run_local_cleanup name now (some days) false offsite host faults refused disk rows
            ≡ ok run)
        × ((run.disk p ≡ found)
            ⊎ ((c : Checked) × Memᴰ c backups
                × (file_of host c.backup ≡ some p)
                × (c.backup.timestamp < days_before now days)
                × (offsite ≢ not_configured → valid c.backup.remote_location ≡ true)))
  unfolding begun
  run_local_cleanup-justified p unique named there = (
    backups,
    left faults host disk rows name,
    final,
    list_backups-listed faults host disk rows name,
    run_local_cleanup-final,
    elim (local_loop-Due limits backups p backups
        (λ c m. (
          m,
          All-at (λ (c : Checked). NonEmpty c.backup) backups
              (listed-NonEmpty faults host disk rows name named) m,
        ))
        (begun unique) there) [
          | inl still ↦ inl still
          | inr (c, m, due) ↦
              inr (c, m, due.named, due.aged, λ known. due.copied (offsite-assumed offsite known))
        ],
  )
