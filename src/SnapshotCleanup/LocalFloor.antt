-- ===== src/SnapshotCleanup/LocalFloor.antt =====
-- Retention never takes the last archives: the newest-N floor over surviving files.
use oddk.Base.{
  subst, min, ap, ◌+◌, ◌≤◌, ℕ, suc, ◌≡◌, ◌≢◌, refl, ◌⊎◌, inl, inr, Bool, true, false, not, List, [],
  ◌∷◌, String, str_eq, arith, count_of, All, if◌then◌else◌, Bool-cases, ne→str_eq, sym,
}
use oddk.Disk.{Disk, local_archive_present, remove_file}
use oddk.Retention.{
  RetentionVerdict, full, snapshot_retention_protects, snapshot_is_complete, is_kept,
}
use oddk.Retention.Floor.{floor_keeps, floor_unspent}
use oddk.Snapshots.{Record, local_path}
use oddk.SnapshotCleanup.{
  Faults, Limits, Run, remove_local_snapshot, age_out, local_step, local_loop,
}
use oddk.Disk.{seems_present, is_abs}
use oddk.Retention.{RetentionKeep, keep_newest}
use oddk.Base.{ltb, ◌∙◌}

abbrev pub is_present : Disk → Record → Bool
is_present disk rec = local_archive_present disk "" (local_path rec)

remove_file-other :
    (refused : String → Bool) (disk : Disk) (path p : String)
    → p ≢ path
    → (remove_file refused disk path).1 p ≡ disk p
unfolding remove_file
remove_file-other refused disk path p h = ground (arith, ne→str_eq path p (λ e. h (sym e)))

-- A turn for one record touches no other file.
remove_local_snapshot-other :
    (faults : Faults) (rec : Record) (run : Run) (p : String)
    → p ≢ local_path rec
    → (remove_local_snapshot faults rec run).1.disk p ≡ run.disk p
unfolding remove_local_snapshot
remove_local_snapshot-other faults rec run p h =
    ground (arith, remove_file-other faults.remove_refused run.disk (local_path rec) p h)

age_out-other :
    (limits : Limits) (rec : Record) (present : Bool) (v : RetentionVerdict) (run : Run)
    (p : String)
    → p ≢ local_path rec
    → (age_out limits rec present v run).disk p ≡ run.disk p
unfolding age_out
age_out-other limits rec present v run p h =
    ground (arith, remove_local_snapshot-other limits.faults rec run p h)

pub local_step-other :
    (limits : Limits) (rec : Record) (run : Run) (p : String)
    → p ≢ local_path rec
    → (local_step limits rec run).disk p ≡ run.disk p
unfolding local_step
local_step-other limits rec run p h = elim (Bool-cases (str_eq (local_path rec) "")) [
  | inl e ↦ rw e refl
  | inr e ↦ rw e (age_out-other limits rec _ _ _ p h)
]

-- The floor after a turn, and what a spent slot bought.
age_out-floor :
    (limits : Limits) (rec : Record) (present : Bool) (v : RetentionVerdict) (run : Run)
    → (age_out limits rec present v run).floor ≡ run.floor
unfolding age_out remove_local_snapshot
age_out-floor limits rec present v run = ground arith

pub age_out-kept :
    (limits : Limits) (rec : Record) (present : Bool) (v : RetentionVerdict) (run : Run)
    → is_kept v.keep ≡ true
    → age_out limits rec present v run ≡ run
unfolding age_out
age_out-kept limits rec present v run h = rw h refl

local_step-limit :
    (limits : Limits) (rec : Record) (run : Run)
    → (local_step limits rec run).floor.limit ≡ run.floor.limit
unfolding local_step snapshot_retention_protects
local_step-limit limits rec run = elim (Bool-cases (str_eq (local_path rec) "")) [
  | inl e ↦ rw e refl
  | inr e ↦ rw e (rw (age_out-floor limits rec) (ground arith))
]

-- An absolute path is looked up as it stands.
pub is_present-lookup :
    (disk : Disk) (rec : Record)
    → is_present disk rec
      ≡ (if str_eq (local_path rec) "" then false else seems_present (disk (local_path rec)))
unfolding local_archive_present
is_present-lookup disk rec = elim (Bool-cases (is_abs (local_path rec))) [
  | inl e ↦ rw e refl
  | inr e ↦ rw e refl
]

pub is_present-path :
    (disk : Disk) (rec : Record) → is_present disk rec ≡ true → str_eq (local_path rec) "" ≡ false
is_present-path disk rec p = ground (arith, is_present-lookup disk rec)

pub is_present-cong :
    (d e : Disk) (rec : Record)
    → (str_eq (local_path rec) "" ≡ false → d (local_path rec) ≡ e (local_path rec))
    → is_present d rec ≡ is_present e rec
is_present-cong d e rec h = ground (arith, is_present-lookup d rec, is_present-lookup e rec)

is_kept_newest : (k : RetentionKeep) → k ≡ keep_newest → is_kept k ≡ true
unfolding is_kept
is_kept_newest k e = rw e refl

-- While the floor has room, a surviving archive stays and takes a slot.
local_step-present :
    (limits : Limits) (rec : Record) (run : Run)
    → is_present run.disk rec ≡ true
    → full run.floor ≡ false
    → ((local_step limits rec run).floor.kept ≡ suc run.floor.kept)
      × ((local_step limits rec run).disk ≡ run.disk)
unfolding local_step
local_step-present limits rec run p room =
    let complete = snapshot_is_complete rec.instances in
    let young = not (ltb rec.created_at limits.pin_cutoff) in
    let answer =
      snapshot_retention_protects run.floor run.complete_kept (is_present run.disk rec) complete
        young in
    let seen : Run = record run { floor = answer.1; complete_kept = answer.2 } in
    let (newest, slot, _) =
      floor_keeps run.floor run.complete_kept (is_present run.disk rec) complete young p room in
    let stays =
      age_out-kept limits rec (is_present run.disk rec) answer.0 seen
        (is_kept_newest answer.0.keep newest) in
    rw (is_present-path run.disk rec p) (rw stays (slot, refl))

-- Otherwise no slot is taken.
local_step-unspent :
    (limits : Limits) (rec : Record) (run : Run)
    → (is_present run.disk rec ≡ false) ⊎ (full run.floor ≡ true)
    → (local_step limits rec run).floor ≡ run.floor
unfolding local_step
local_step-unspent limits rec run h = elim (Bool-cases (str_eq (local_path rec) "")) [
  | inl e ↦ rw e refl
  | inr e ↦ rw e (
      rw (age_out-floor limits rec)
        (floor_unspent run.floor run.complete_kept (is_present run.disk rec) _ _ h))
]

-- A file whose path no record of the list names is left alone.
pub local_loop-other :
    (limits : Limits) (rs : List Record) (run : Run) (p : String)
    → All (λ r. p ≢ local_path r) rs
    → (local_loop limits rs run).disk p ≡ run.disk p
unfolding local_loop
local_loop-other limits [] run p h = refl
local_loop-other limits (r ∷ rs) run p h =
    local_loop-other limits rs (local_step limits r run) p h.1 ∙ local_step-other limits r run p h.0

-- No two records name one archive.
abbrev pub OwnPaths : List Record → Type 0
OwnPaths [] = Unit
OwnPaths (r ∷ rs) =
    (str_eq (local_path r) "" ≡ false → All (λ s. local_path r ≢ local_path s) rs) × OwnPaths rs

abbrev pub surviving : Disk → List Record → ℕ
surviving disk rs = count_of (is_present disk) rs

surviving-cong :
    (d e : Disk) (rs : List Record)
    → All (λ s. str_eq (local_path s) "" ≡ false → d (local_path s) ≡ e (local_path s)) rs
    → surviving d rs ≡ surviving e rs
surviving-cong d e [] h = refl
surviving-cong d e (r ∷ rs) h =
    rw (is_present-cong d e r h.0)
      (ap (λ n. (if is_present e r then 1 else 0) + n) (surviving-cong d e rs h.1))

elsewhere :
    (limits : Limits) (r : Record) (run : Run) (rs : List Record)
    → All (λ s. local_path r ≢ local_path s) rs
    → All
        (λ s.
          str_eq (local_path s) "" ≡ false
          → (local_step limits r run).disk (local_path s) ≡ run.disk (local_path s))
        rs
elsewhere limits r run [] h = tt
elsewhere limits r run (s ∷ rs) h = (
  λ _. local_step-other limits r run (local_path s) (λ e. h.0 (sym e)),
  elsewhere limits r run rs h.1,
)

pub local_step-no_path :
    (limits : Limits) (r : Record) (run : Run)
    → str_eq (local_path r) "" ≡ true
    → local_step limits r run ≡ run
unfolding local_step
local_step-no_path limits r run e = rw e refl

no_path-absent :
    (disk : Disk) (r : Record) → str_eq (local_path r) "" ≡ true → is_present disk r ≡ false
no_path-absent disk r e = ground (arith, is_present-lookup disk r)

-- One turn of the induction: what the floor and the survivors gain or lose together.
turn_floor :
    (limits : Limits) (r : Record) (run : Run)
    → let run' = local_step limits r run in
      (full run.floor ≡ true)
      ⊎ ((run'.floor.kept ≡ run.floor.kept) × (is_present run.disk r ≡ false))
      ⊎ ((run'.floor.kept ≡ suc run.floor.kept) × (is_present run'.disk r ≡ true))
turn_floor limits r run = elim (Bool-cases (full run.floor)) [
  | inl f ↦ inl f
  | inr room ↦ elim (Bool-cases (is_present run.disk r)) [
    | inl p ↦
        let (slot, same) = local_step-present limits r run p room in
        inr (inr (slot, ap (λ d. is_present d r) same ∙ p))
    | inr q ↦ inr (inl (ap (λ f. f.kept) (local_step-unspent limits r run (inl q)), q))
  ]
]

local_loop-cons :
    (limits : Limits) (r : Record) (rs : List Record) (run : Run)
    → local_loop limits (r ∷ rs) run ≡ local_loop limits rs (local_step limits r run)
unfolding local_loop
local_loop-cons limits r rs run = refl

local_loop-nil : (limits : Limits) (run : Run) → local_loop limits [] run ≡ run
unfolding local_loop
local_loop-nil limits run = refl

-- The archives that survive fill the floor, or are all that there were.
pub local_loop-floor :
    (limits : Limits) (rs : List Record) (run : Run)
    → OwnPaths rs
    → min run.floor.limit (run.floor.kept + surviving run.disk rs)
      ≤ run.floor.kept + surviving (local_loop limits rs run).disk rs
unfolding full
local_loop-floor limits [] run own = omega arith
local_loop-floor limits (r ∷ rs) run own = elim (Bool-cases (str_eq (local_path r) "")) [
  | inl e ↦ ground (
    arith,
    local_loop-floor limits rs run own.1,
    local_loop-cons limits r rs run,
    local_step-no_path limits r run e,
    no_path-absent run.disk r e,
    no_path-absent (local_loop limits rs run).disk r e,
  )
  | inr e ↦
      let run' = local_step limits r run in
      let last = local_loop limits rs run' in
      let others = surviving-cong run'.disk run.disk rs (elsewhere limits r run rs (own.0 e)) in
      let stays =
        is_present-cong last.disk run'.disk r
          (λ _. local_loop-other limits rs run' (local_path r) (own.0 e)) in
      subst
        (λ (l : Run).
          min run.floor.limit (run.floor.kept + surviving run.disk (r ∷ rs))
          ≤ run.floor.kept + surviving l.disk (r ∷ rs))
        (sym (local_loop-cons limits r rs run))
        (ground (
          arith,
          local_loop-floor limits rs run' own.1,
          local_step-limit limits r run,
          turn_floor limits r run,
          others,
          stays,
        ))
]
