-- ===== src/SnapshotRemote/Turn.antt =====
-- What one turn of the offsite cleanup does to the floor and to the bucket.
use oddk.Base.{
  suc, ◌<◌, ◌≡◌, ◌≢◌, refl, sym, ◌∙◌, ap, ◌⊎◌, inl, inr, Bool, true, false, not, Option, none, some,
  String, str_eq, str_eq→eq, eq→str_eq, if◌then◌else◌, arith, Bool-cases, Option-cases, ltb,
}
use oddk.Bucket.{Objects, our_key, remote_archive_present}
use oddk.Bucket.Keys.{delete_file-other}
use oddk.Retention.{
  RetentionFloor, RetentionVerdict, full, snapshot_retention_protects, snapshot_is_complete,
  is_kept, keep_newest,
}
use oddk.Retention.Floor.{floor_keeps, floor_unspent}
use oddk.Retention.Loop.{Turns, FillsFloor}
use oddk.Snapshots.{Record, remote_path}
use oddk.SnapshotRemote.{Limits, Run, remove_remote, remove_if_ours, age_out, headed, remote_step}

-- A catalogued remote copy that the bucket does not deny.
abbrev pub in_bucket : Limits → Objects → Record → Bool
in_bucket limits objects r =
    if str_eq (remote_path r) ""
    then false
    else remote_archive_present limits.remote objects (remote_path r)

abbrev pub turns : Limits → Turns Run Record
turns limits = record {
  step = remote_step limits;
  floor = λ s. s.floor;
  survives = λ s r. in_bucket limits s.objects r;
}

module _ (limits : Limits) (r : Record) (run : Run) where
  remove_remote-floor : (key : String) → (remove_remote limits r key run).floor ≡ run.floor
  unfolding remove_remote
  remove_remote-floor key = ground arith

  remove_remote-objects :
      (key k : String) → key ≢ k → (remove_remote limits r key run).objects k ≡ run.objects k
  unfolding remove_remote
  remove_remote-objects key k h = ground (arith, delete_file-other limits.remote key k run.objects)

  pub age_out-floor : (v : RetentionVerdict) → (age_out limits r v run).floor ≡ run.floor
  unfolding age_out
  age_out-floor v = elim (Option-cases (our_key limits.remote (remote_path r))) [
    | inl e ↦ ground arith
    | inr (k, e) ↦ ground (arith, remove_remote-floor k)
  ]

  pub age_out-kept : (v : RetentionVerdict) → v.keep ≡ keep_newest → age_out limits r v run ≡ run
  unfolding age_out is_kept
  age_out-kept v e = rw e refl

  remove_if_ours-objects :
      (named : Option String) (k : String)
      → ((remove_if_ours limits r named run).objects k ≡ run.objects k) ⊎ (named ≡ some k)
  remove_if_ours-objects none k = inl refl
  remove_if_ours-objects (some key) k = elim (Bool-cases (str_eq key k)) [
    | inl e ↦ inr (ap some (str_eq→eq key k e))
    | inr e ↦ inl (remove_remote-objects key k (λ q. ground (arith, eq→str_eq key k q)))
  ]

  -- The object of a key is touched only by a record that names it and is past the window.
  pub age_out-objects :
      (v : RetentionVerdict) (k : String)
      → ((age_out limits r v run).objects k ≡ run.objects k)
        ⊎ ((our_key limits.remote (remote_path r) ≡ some k) × (r.created_at < limits.cutoff))
  unfolding age_out
  age_out-objects v k =
      ground (arith, remove_if_ours-objects (our_key limits.remote (remote_path r)) k)

module _ (limits : Limits) (r : Record) (run : Run) where
  abbrev answer : RetentionVerdict × RetentionFloor × Bool
  answer =
      snapshot_retention_protects run.floor run.complete_kept (headed limits r run)
        (snapshot_is_complete r.instances) (not (ltb r.created_at limits.pin_cutoff))

  abbrev seen : Run
  seen = record run { floor = answer.1; complete_kept = answer.2 }

  pub remote_step-no_path : str_eq (remote_path r) "" ≡ true → remote_step limits r run ≡ run
  unfolding remote_step
  remote_step-no_path e = rw e refl

  pub remote_step-named :
      str_eq (remote_path r) "" ≡ false → remote_step limits r run ≡ age_out limits r answer.0 seen
  unfolding remote_step
  remote_step-named e = rw e refl

  -- An object changes only by a record that names it and is past the window.
  pub remote_step-objects :
      (k : String)
      → ((remote_step limits r run).objects k ≡ run.objects k)
        ⊎ ((our_key limits.remote (remote_path r) ≡ some k) × (r.created_at < limits.cutoff))
  remote_step-objects k = elim (Bool-cases (str_eq (remote_path r) "")) [
    | inl e ↦ inl (rw (remote_step-no_path e) refl)
    | inr e ↦ rw (remote_step-named e) (age_out-objects limits r seen answer.0 k)
  ]

  remote_step-floor :
      str_eq (remote_path r) "" ≡ false → (remote_step limits r run).floor ≡ answer.1
  remote_step-floor e = rw (remote_step-named e) (age_out-floor limits r seen answer.0)

  remote_step-limit : (remote_step limits r run).floor.limit ≡ run.floor.limit
  unfolding snapshot_retention_protects
  remote_step-limit = elim (Bool-cases (str_eq (remote_path r) "")) [
    | inl e ↦ rw (remote_step-no_path e) refl
    | inr e ↦ rw (remote_step-floor e) (ground arith)
  ]

  -- While the floor has room the bucket is asked.
  headed-room :
      full run.floor ≡ false
      → headed limits r run ≡ remote_archive_present limits.remote run.objects (remote_path r)
  headed-room room = rw room refl

  -- A copy that is there stays and takes a slot; one that the bucket denies takes none.
  remote_step-room :
      full run.floor ≡ false
      → str_eq (remote_path r) "" ≡ false
      → let run' = remote_step limits r run in
        ((run'.floor.kept ≡ run.floor.kept) × (in_bucket limits run.objects r ≡ false))
        ⊎ ((run'.floor.kept ≡ suc run.floor.kept) × (in_bucket limits run'.objects r ≡ true))
  remote_step-room room named = elim (Bool-cases (headed limits r run)) [
    | inl p ↦
        let (newest, slot, _) =
          floor_keeps run.floor run.complete_kept (headed limits r run)
            (snapshot_is_complete r.instances) (not (ltb r.created_at limits.pin_cutoff)) p room in
        inr (
          ap (λ f. f.kept) (remote_step-floor named) ∙ slot,
          rw (remote_step-named named, age_out-kept limits r seen answer.0 newest)
              (rw named (sym (headed-room room) ∙ p)),
        )
    | inr q ↦ inl (
      ap (λ f. f.kept)
          (remote_step-floor named
            ∙ floor_unspent run.floor run.complete_kept (headed limits r run)
                (snapshot_is_complete r.instances) (not (ltb r.created_at limits.pin_cutoff))
                (inl q)),
      rw named (sym (headed-room room) ∙ q),
    )
  ]

  remote_step-slot :
      let run' = remote_step limits r run in
      (full run.floor ≡ true)
      ⊎ ((run'.floor.kept ≡ run.floor.kept) × (in_bucket limits run.objects r ≡ false))
      ⊎ ((run'.floor.kept ≡ suc run.floor.kept) × (in_bucket limits run'.objects r ≡ true))
  remote_step-slot = elim (Bool-cases (full run.floor)) [
    | inl f ↦ inl f
    | inr room ↦ elim (Bool-cases (str_eq (remote_path r) "")) [
      | inl e ↦ inr (inl (ap (λ (s : Run). s.floor.kept) (remote_step-no_path e), rw e refl))
      | inr named ↦ inr (remote_step-room room named)
    ]
  ]

pub turns-FillsFloor : (limits : Limits) → FillsFloor (turns limits)
turns-FillsFloor limits = record {
  limit = λ r s. remote_step-limit limits r s;
  turn = λ r s. remote_step-slot limits r s;
}
