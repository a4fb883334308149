-- ===== src/BackupRemote/Turn.antt =====
-- What one turn of the offsite cleanup does to the floor and to the bucket.
use oddk.Base.{
  suc, ◌+◌, ◌<◌, ◌≡◌, ◌≢◌, refl, ap, ◌∙◌, inl, inr, ◌⊎◌, Bool, true, false, Option, none, some,
  String, str_eq, str_eq→eq, eq→str_eq, arith, Bool-cases,
}
use oddk.Bucket.{Objects, remote_archive_present}
use oddk.Bucket.Keys.{delete_file-other}
use oddk.Retention.{RetentionFloor, full, protects}
use oddk.Retention.Floor.{protects_present, protects_unspent}
use oddk.Retention.Loop.{Turns, FillsFloor}
use oddk.Backups.{BackupRecord, Checked}
use oddk.BackupRemote.{
  Limits, Run, deleted_key, delete_remote, delete_if_ours, age_out, protection, step_at,
  remote_step,
}

abbrev pub in_bucket_at : Limits → Objects → Option String → Bool
in_bucket_at limits objects none = false
in_bucket_at limits objects (some location) = remote_archive_present limits.remote objects location

-- A catalogued remote copy that the bucket does not deny.
abbrev pub in_bucket : Limits → Objects → Checked → Bool
in_bucket limits objects c = in_bucket_at limits objects c.backup.remote_location

abbrev pub deleted_at : Limits → Option String → Option String
deleted_at limits none = none
deleted_at limits (some location) = deleted_key limits.remote location

module _ (limits : Limits) (b : BackupRecord) (run : Run) where
  delete_remote-floor : (key : String) → (delete_remote limits b key run).floor ≡ run.floor
  unfolding delete_remote
  delete_remote-floor key = ground arith

  delete_remote-objects :
      (key k : String) → key ≢ k → (delete_remote limits b key run).objects k ≡ run.objects k
  unfolding delete_remote
  delete_remote-objects key k h = ground (arith, delete_file-other limits.remote key k run.objects)

  delete_if_ours-objects :
      (named : Option String) (k : String)
      → ((delete_if_ours limits b named run).objects k ≡ run.objects k) ⊎ (named ≡ some k)
  delete_if_ours-objects none k = inl refl
  delete_if_ours-objects (some key) k = elim (Bool-cases (str_eq key k)) [
    | inl e ↦ inr (ap some (str_eq→eq key k e))
    | inr e ↦ inl (delete_remote-objects key k (λ q. ground (arith, eq→str_eq key k q)))
  ]

  delete_if_ours-floor :
      (named : Option String) → (delete_if_ours limits b named run).floor ≡ run.floor
  delete_if_ours-floor none = refl
  delete_if_ours-floor (some key) = delete_remote-floor key

  age_out-floor :
      (location : String) (protected : Bool)
      → (age_out limits b location protected run).floor ≡ run.floor
  unfolding age_out
  age_out-floor location protected =
      ground (arith, delete_if_ours-floor (deleted_key limits.remote location))

  age_out-objects :
      (location : String) (protected : Bool) (k : String)
      → ((age_out limits b location protected run).objects k ≡ run.objects k)
        ⊎ ((deleted_key limits.remote location ≡ some k) × (b.timestamp < limits.cutoff))
  unfolding age_out
  age_out-objects location protected k =
      ground (arith, delete_if_ours-objects (deleted_key limits.remote location) k)

module _ (limits : Limits) (b : BackupRecord) (run : Run) where
  abbrev seen : String → Run
  seen location = record run { floor = (protection limits location run).1 }

  -- An object goes only by a record whose location leads the deletion to it, past the window.
  pub step_at-objects :
      (location : Option String) (k : String)
      → ((step_at limits b location run).objects k ≡ run.objects k)
        ⊎ ((deleted_at limits location ≡ some k) × (b.timestamp < limits.cutoff))
  step_at-objects none k = inl refl
  step_at-objects (some location) k =
      age_out-objects limits b (seen location) location (protection limits location run).0 k

  step_at-floor :
      (location : String)
      → (step_at limits b (some location) run).floor ≡ (protection limits location run).1
  step_at-floor location = age_out-floor limits b (seen location) location _

  protection-limit :
      (location : String) → (protection limits location run).1.limit ≡ run.floor.limit
  unfolding protects
  protection-limit location = ground arith

  step_at-limit :
      (location : Option String) → (step_at limits b location run).floor.limit ≡ run.floor.limit
  step_at-limit none = refl
  step_at-limit (some location) =
      ap (λ (f : RetentionFloor). f.limit) (step_at-floor location) ∙ protection-limit location

  -- With room in the floor, a copy that the bucket does not deny stays and takes a slot.
  protection-present :
      (location : String)
      → full run.floor ≡ false
      → remote_archive_present limits.remote run.objects location ≡ true
      → protection limits location run ≡ (true, record (run.floor) { kept = run.floor.kept + 1 })
  protection-present location room p = rw (room, p) (protects_present run.floor room)

  protection-absent :
      (location : String)
      → full run.floor ≡ false
      → remote_archive_present limits.remote run.objects location ≡ false
      → protection limits location run ≡ (false, run.floor)
  protection-absent location room q = rw (room, q) (protects_unspent run.floor false (inl refl))

  step_at-present :
      (location : String)
      → full run.floor ≡ false
      → remote_archive_present limits.remote run.objects location ≡ true
      → step_at limits b (some location) run
        ≡ record run { floor = record (run.floor) { kept = run.floor.kept + 1 } }
  unfolding age_out
  step_at-present location room p = rw (protection-present location room p) refl

  step_at-slot :
      (location : Option String)
      → let run' = step_at limits b location run in
        (full run.floor ≡ true)
        ⊎ ((run'.floor.kept ≡ run.floor.kept) × (in_bucket_at limits run.objects location ≡ false))
        ⊎ ((run'.floor.kept ≡ suc run.floor.kept)
            × (in_bucket_at limits run'.objects location ≡ true))
  step_at-slot none = inr (inl (refl, refl))
  step_at-slot (some location) = elim (Bool-cases (full run.floor)) [
    | inl f ↦ inl f
    | inr room ↦ elim (Bool-cases (remote_archive_present limits.remote run.objects location)) [
      | inr q ↦ inr (
          inl (
            ap (λ (f : RetentionFloor). f.kept)
                (step_at-floor location ∙ ap (λ pair. pair.1) (protection-absent location room q)),
            q,
          ))
      | inl p ↦ inr (
          inr (
            ap (λ (s : Run). s.floor.kept) (step_at-present location room p) ∙ omega arith,
            ap (λ (s : Run). remote_archive_present limits.remote s.objects location)
                  (step_at-present location room p)
                ∙ p,
          ))
    ]
  ]

module _ (limits : Limits) where
  abbrev pub turns : Turns Run Checked
  turns = record {
    step = remote_step limits;
    floor = λ s. s.floor;
    survives = λ s c. in_bucket limits s.objects c;
  }

  pub turns-FillsFloor : FillsFloor turns
  unfolding remote_step
  turns-FillsFloor = record {
    limit = λ c s. step_at-limit limits c.backup s c.backup.remote_location;
    turn = λ c s. step_at-slot limits c.backup s c.backup.remote_location;
  }
