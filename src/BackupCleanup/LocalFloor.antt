-- ===== src/BackupCleanup/LocalFloor.antt =====
-- The local cleanup as a retention loop: the floor over the files that are there.
use oddk.Base.{
  suc, ◌+◌, ◌<◌, ◌≡◌, refl, sym, ap, ◌∙◌, subst, inl, inr, ◌⊎◌, Bool, true, false, Option, none,
  some, String, arith, Bool-cases, Memᴰ,
}
use oddk.Disk.{Disk, local_archive_present, resolve}
use oddk.Retention.{RetentionFloor, full, protects}
use oddk.Retention.Floor.{protects_present, protects_unspent}
use oddk.Backups.{BackupRecord, Checked, Host, valid}
use oddk.BackupCleanup.{Limits, Run, remove_aged, age_out, step_at}
use oddk.BackupCleanup.Local.{
  file_at, file_of, Agrees, remove_aged-floor, remove_aged-disk, remove_aged-Agrees,
}

abbrev pub there_at : Host → Disk → Option String → Bool
there_at host disk none = false
there_at host disk (some location) = local_archive_present disk host.data_dir location

-- A local copy that is not known to be gone.
abbrev pub is_there : Host → Disk → Checked → Bool
is_there host disk c = there_at host disk c.backup.local_location

pub there_at-cong :
    (host : Host) (d e : Disk) (location : Option String)
    → ((p : String) → file_at host location ≡ some p → d p ≡ e p)
    → there_at host d location ≡ there_at host e location
unfolding local_archive_present
there_at-cong host d e none h = refl
there_at-cong host d e (some location) h = rw (h (resolve host.data_dir location) refl) refl

module _ (limits : Limits) (b : BackupRecord) (present protected : Bool) (run : Run) where
  -- A copy is removed only if it is not protected, past the window, and no only copy.
  pub age_out-cases :
      (age_out limits b present protected run ≡ run)
      ⊎ ((age_out limits b present protected run ≡ remove_aged limits b run)
          × (protected ≡ false)
          × (b.timestamp < limits.cutoff)
          × (present ≡ true → limits.offsite_configured ≡ true → valid b.remote_location ≡ true))
  unfolding age_out
  age_out-cases = ground arith

  age_out-floor : (age_out limits b present protected run).floor ≡ run.floor
  age_out-floor = elim age_out-cases [
    | inl e ↦ ap (λ (s : Run). s.floor) e
    | inr (e, _, _, _) ↦ ap (λ (s : Run). s.floor) e ∙ remove_aged-floor limits b run
  ]

  age_out-disk :
      (p : String)
      → ((age_out limits b present protected run).disk p ≡ run.disk p)
        ⊎ ((r : BackupRecord) × Memᴰ r run.rows × (r.id ≡ b.id) × (file_of limits.host r ≡ some p))
  age_out-disk p = elim age_out-cases [
    | inl e ↦ inl (ap (λ (s : Run). s.disk p) e)
    | inr (e, _, _, _) ↦ elim (remove_aged-disk limits b run p) [
      | inl same ↦ inl (ap (λ (s : Run). s.disk p) e ∙ same)
      | inr row ↦ inr row
    ]
  ]

  age_out-Agrees :
      (c : BackupRecord)
      → Agrees c run.rows
      → Agrees c (age_out limits b present protected run).rows
  age_out-Agrees c h = elim age_out-cases [
    | inl e ↦ subst (λ (s : Run). Agrees c s.rows) (sym e) h
    | inr (e, _, _, _) ↦
        subst (λ (s : Run). Agrees c s.rows) (sym e) (remove_aged-Agrees limits b run c h)
  ]

module _ (limits : Limits) (b : BackupRecord) (run : Run) where
  pub step_at-disk :
      (location : Option String) (p : String)
      → ((step_at limits b location run).disk p ≡ run.disk p)
        ⊎ ((r : BackupRecord) × Memᴰ r run.rows × (r.id ≡ b.id) × (file_of limits.host r ≡ some p))
  step_at-disk none p = inl refl
  step_at-disk (some location) p = age_out-disk limits b _ _ _ p

  pub step_at-Agrees :
      (location : Option String) (c : BackupRecord)
      → Agrees c run.rows
      → Agrees c (step_at limits b location run).rows
  step_at-Agrees none c h = h
  step_at-Agrees (some location) c h = age_out-Agrees limits b _ _ _ c h

  abbrev answered : Bool → Run
  answered present =
      age_out limits b present (protects run.floor present).0
        (record run { floor = (protects run.floor present).1 })

  answered-floor : (present : Bool) → (answered present).floor ≡ (protects run.floor present).1
  answered-floor present = age_out-floor limits b present _ _

  -- With room in the floor a copy that is there stays and takes a slot.
  answered-present :
      full run.floor ≡ false
      → answered true ≡ record run { floor = record (run.floor) { kept = run.floor.kept + 1 } }
  unfolding age_out
  answered-present room = rw (protects_present run.floor room) refl

  protects-limit : (present : Bool) → (protects run.floor present).1.limit ≡ run.floor.limit
  unfolding protects
  protects-limit present = ground arith

  pub step_at-limit :
      (location : Option String) → (step_at limits b location run).floor.limit ≡ run.floor.limit
  step_at-limit none = refl
  step_at-limit (some location) =
      ap (λ (f : RetentionFloor). f.limit) (answered-floor _) ∙ protects-limit _

  pub step_at-slot :
      (location : Option String)
      → let run' = step_at limits b location run in
        (full run.floor ≡ true)
        ⊎ ((run'.floor.kept ≡ run.floor.kept) × (there_at limits.host run.disk location ≡ false))
        ⊎ ((run'.floor.kept ≡ suc run.floor.kept)
            × (there_at limits.host run'.disk location ≡ true))
  step_at-slot none = inr (inl (refl, refl))
  step_at-slot (some location) =
      let present = local_archive_present run.disk limits.host.data_dir location in
      elim (Bool-cases (full run.floor)) [
        | inl f ↦ inl f
        | inr room ↦ elim (Bool-cases present) [
          | inr q ↦ inr (
              inl (
                ap (λ (f : RetentionFloor). f.kept)
                    (answered-floor present
                      ∙ ap (λ pair. pair.1) (protects_unspent run.floor present (inl q))),
                q,
              ))
          | inl p ↦ inr (
              inr (
                rw p (
                  ap (λ (s : Run). s.floor.kept) (answered-present room) ∙ omega arith,
                  ap (λ (s : Run). local_archive_present s.disk limits.host.data_dir location)
                        (answered-present room)
                      ∙ p,
                )))
        ]
      ]
