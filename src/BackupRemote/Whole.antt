-- ===== src/BackupRemote/Whole.antt =====
-- What one pass of `runRemoteCleanup` over an instance's backups promises.
use oddk.Base.{
  ℕ, ◌≤◌, min, ◌≡◌, ◌≢◌, refl, sym, ap, ◌∙◌, inl, inr, false, Option, none, some, List, [], ◌∷◌,
  count_of, String, arith, ok, All, Pairwise, Option-cases,
}
use oddk.Bucket.{Objects, Remote, our_key}
use oddk.Bucket.Keys.{remote_archive_present-cong}
use oddk.Disk.{Disk}
use oddk.Retention.{new_retention_floor}
use oddk.Retention.Loop.{Apart, AllApart, loop, loop-floor}
use oddk.SnapshotRemote.{client}
use oddk.Backups.{BackupRecord, Checked, Host, Faults, list_backups}
use oddk.BackupCleanup.{min_retained_backups}
use oddk.Backups.Answer.{listed, left, entry-row, listed-Pairwise, list_backups-listed}
use oddk.BackupRemote.{
  Limits, Run, deleted_key, remote_step, remote_loop, limits_at, start, run_remote_cleanup,
}
use oddk.BackupRemote.Turn.{
  in_bucket_at, in_bucket, deleted_at, step_at-objects, turns, turns-FillsFloor,
}

in_bucket_at-cong :
    (limits : Limits) (o p : Objects) (location : Option String)
    → ((k : String) (l : String) → location ≡ some l → our_key limits.remote l ≡ some k → o k ≡ p k)
    → in_bucket_at limits o location ≡ in_bucket_at limits p location
in_bucket_at-cong limits o p none h = refl
in_bucket_at-cong limits o p (some l) h =
    remote_archive_present-cong limits.remote o p l (λ k e. h k l refl e)

-- The deletion of one does not address the object of the other.
abbrev pub Untouched : Remote → Option String → Option String → Type 0
Untouched remote a b =
    (l m k : String)
    → a ≡ some l
    → b ≡ some m
    → deleted_key remote l ≡ some k
    → our_key remote m ≢ some k

abbrev pub Separate : Remote → BackupRecord → BackupRecord → Type 0
Separate remote b d =
    Untouched remote b.remote_location d.remote_location
    × Untouched remote d.remote_location b.remote_location

module _ (limits : Limits) where
  remote_step-other :
      (c d : Checked) (s : Run)
      → Untouched limits.remote c.backup.remote_location d.backup.remote_location
      → in_bucket limits (remote_step limits c s).objects d ≡ in_bucket limits s.objects d
  unfolding remote_step
  remote_step-other c d s h =
      in_bucket_at-cong limits _ s.objects d.backup.remote_location (λ k m e ours.
        elim (step_at-objects limits c.backup s c.backup.remote_location k) [
          | inl same ↦ same
          | inr (named, _) ↦ elim (Option-cases c.backup.remote_location) [
            | inl n ↦ absurd (ground (arith, ap (deleted_at limits) n, named))
            | inr (l, n) ↦ absurd (h l m k n e (ap (deleted_at limits) (sym n) ∙ named) ours)
          ]
        ])

  turns_commute :
      (c : Checked) (cs : List Checked)
      → All (λ (d : Checked). Separate limits.remote c.backup d.backup) cs
      → All (Apart (turns limits) c) cs
  turns_commute c [] h = tt
  turns_commute c (d ∷ cs) h = (
    (λ s. remote_step-other c d s h.0.0, λ s. remote_step-other d c s h.0.1),
    turns_commute c cs h.1,
  )

  Pairwise-AllApart :
      (cs : List Checked)
      → Pairwise (λ (c : Checked) (d : Checked). Separate limits.remote c.backup d.backup) cs
      → AllApart (turns limits) cs
  Pairwise-AllApart [] h = tt
  Pairwise-AllApart (c ∷ cs) h = (turns_commute c cs h.0, Pairwise-AllApart cs h.1)

  remote_loop-loop :
      (cs : List Checked) (run : Run) → remote_loop limits cs run ≡ loop (turns limits) cs run
  unfolding remote_loop
  remote_loop-loop [] run = refl
  remote_loop-loop (c ∷ cs) run = remote_loop-loop cs (remote_step limits c run)

-- No deletion for one row addresses the object of another.
abbrev pub OwnObjects : Remote → List BackupRecord → Type 0
OwnObjects remote = Pairwise (Separate remote)

module _ (name : String) (now days : ℕ) (remote : Remote) (host : Host) (faults : Faults)
    (disk : Disk) (objects : Objects) (rows : List BackupRecord) where
  abbrev pub limits : Limits
  limits = limits_at name now days remote host disk faults

  abbrev backups : List Checked
  backups = listed faults host disk rows name

  abbrev final : Run
  final = remote_loop limits backups (start objects (left faults host disk rows name))

  run_remote_cleanup-final :
      run_remote_cleanup name now (client remote) (some days) false host faults disk objects rows
      ≡ ok final
  unfolding run_remote_cleanup
  run_remote_cleanup-final = rw (list_backups-listed faults host disk rows name) refl

  listed-Separate :
      OwnObjects remote rows
      → Pairwise (λ (c : Checked) (d : Checked). Separate remote c.backup d.backup) backups
  listed-Separate =
      listed-Pairwise faults host disk rows name (Separate remote)
        (λ c d. Separate remote c.backup d.backup) (λ b d h. (h.1, h.0))
        (λ b d h.
          rw
            ((entry-row faults host disk rows name b).2, (entry-row faults host disk rows name d).2)
            h)

  floor_holds :
      OwnObjects remote rows
      → min min_retained_backups (count_of (in_bucket limits objects) backups)
        ≤ count_of (in_bucket limits final.objects) backups
  unfolding new_retention_floor
  floor_holds own =
      let begun = start objects (left faults host disk rows name) in
      omega (
        arith,
        loop-floor (turns limits) (turns-FillsFloor limits) backups begun
            (Pairwise-AllApart limits backups (listed-Separate own)),
        ap (λ (s : Run). count_of (in_bucket limits s.objects) backups)
            (remote_loop-loop limits backups begun),
      )

  -- If no deletion for one row of the catalogue addresses the object of another, then an offsite
  -- cleanup of an instance with readable settings, plan and catalogue returns no error, and of the n
  -- listed copies that the bucket did not deny before it, at least min(2, n) are such copies
  -- afterwards, whatever requests and statements fail on the way.
  pub run_remote_cleanup-keeps :
      OwnObjects remote rows
      → (found : List Checked) × (after : List BackupRecord) × (run : Run) × (list_backups false
            faults host disk name rows
          ≡ ok (found, after))
        × (run_remote_cleanup name now
              (client remote)
              (some days)
              false
              host
              faults
              disk
              objects
              rows
            ≡ ok run)
        × (min min_retained_backups (count_of (in_bucket limits objects) found)
            ≤ count_of (in_bucket limits run.objects) found)
  run_remote_cleanup-keeps own = (
    backups,
    left faults host disk rows name,
    final,
    list_backups-listed faults host disk rows name,
    run_remote_cleanup-final,
    floor_holds own,
  )
