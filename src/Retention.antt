-- ===== src/Retention.antt =====
-- internal/operations/retention.go: the rules that decide which archive copies age-based
-- retention may delete. Instants are seconds since the epoch.
pub mod Floor
pub mod Loop
use oddk.Base.{
  ℕ, ◌+◌, ◌-◌, ◌*◌, Bool, true, false, not, ◌&&◌, ◌||◌, Option, none, some, List, [], ◌∷◌, String,
  all, leb, if◌then◌else◌,
}

pub record RetentionFloor : Type 0 where
  pub limit : ℕ
  pub kept : ℕ

unfoldable pub new_retention_floor : ℕ → RetentionFloor
new_retention_floor limit = record { limit = limit; kept = 0 }

unfoldable pub full : RetentionFloor → Bool
full f = leb f.limit f.kept

-- A method with a pointer receiver returns its result and the new receiver.
unfoldable pub protects : RetentionFloor → Bool → Bool × RetentionFloor
unfolding full
protects f copy_present =
    if not copy_present || full f then (false, f) else (true, record f { kept = f.kept + 1 })

-- `RecordInstance` and the coverage list of a snapshot record; `none` is Go's nil slice.
pub record RecordInstance : Type 0 where
  pub name : String
  pub has_data : Bool

unfoldable pub snapshot_is_complete : Option (List RecordInstance) → Bool
snapshot_is_complete none = true
snapshot_is_complete (some instances) = all (λ inst. inst.has_data) instances

pub data RetentionKeep : Type 0 where
  keep_none keep_newest keep_newest_complete : RetentionKeep

abbrev pub complete_pin_grace_days : ℕ
complete_pin_grace_days = 30

abbrev pub day : ℕ
day = 86400

-- `now.AddDate(0, 0, -days)`. No instant lies before the epoch, so where the subtraction is cut
-- off at 0, nothing is before the cutoff, as in the source.
pub days_before : ℕ → ℕ → ℕ
days_before now days = now - days * day

unfoldable pub complete_pin_cutoff : ℕ → ℕ → ℕ
unfolding days_before
complete_pin_cutoff now cleanup_days = days_before now (cleanup_days + complete_pin_grace_days)

pub record RetentionVerdict : Type 0 where
  pub keep : RetentionKeep
  pub pin_expired : Bool

-- The closing `switch` of `snapshotRetentionProtects`.
verdict_of : Bool → Bool → Bool → RetentionVerdict
verdict_of newest pinned pin_expired =
    if newest
    then record { keep = keep_newest; pin_expired = false }
    else if pinned
    then record { keep = keep_newest_complete; pin_expired = false }
    else record { keep = keep_none; pin_expired = pin_expired }

-- The verdict, and the two values that the function updates: the floor and `completeKept`.
unfoldable pub snapshot_retention_protects :
    RetentionFloor → Bool → Bool → Bool → Bool → RetentionVerdict × RetentionFloor × Bool
unfolding protects verdict_of
snapshot_retention_protects floor complete_kept present is_complete pin_eligible =
    let (newest, floor') = protects floor present in
    let first_complete = present && is_complete && not complete_kept in
    (
      verdict_of newest (first_complete && pin_eligible) (first_complete && not pin_eligible),
      floor',
      complete_kept || first_complete,
    )

-- `verdict.keep != retentionKeepNone`
unfoldable pub is_kept : RetentionKeep → Bool
is_kept keep_none = false
is_kept _ = true
