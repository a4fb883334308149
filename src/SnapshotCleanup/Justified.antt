-- ===== src/SnapshotCleanup/Justified.antt =====
-- Every archive that local retention deletes is past the window, and is not an only copy.
use oddk.Base.{
  ap, eq→str_eq, ◌<◌, ◌≡◌, refl, ◌⊎◌, inl, inr, Bool, true, false, not, List, [], ◌∷◌, String,
  str_eq, arith, Memᴰ, Bool-cases, str_eq→eq, ltb, sym, ◌∙◌,
}
use oddk.Disk.{Disk, found}
use oddk.Retention.{RetentionVerdict, snapshot_retention_protects, snapshot_is_complete}
use oddk.Snapshots.{Record, local_path, remote_path}
use oddk.SnapshotCleanup.{Limits, Run, age_out, local_step, local_loop}
use oddk.SnapshotCleanup.LocalFloor.{is_present, is_present-lookup, local_step-other}

-- What a deletion must be able to show.
pub record IsDue (limits : Limits) (p : String) (r : Record) : Type 0 where
  pub named : local_path r ≡ p
  pub aged : r.created_at < limits.cutoff
  pub copied : limits.offsite_configured ≡ true → str_eq (remote_path r) "" ≡ false

age_out-due :
    (limits : Limits) (r : Record) (present : Bool) (v : RetentionVerdict) (run : Run)
    → present ≡ true
    → ((age_out limits r present v run).disk ≡ run.disk)
      ⊎ ((r.created_at < limits.cutoff)
          × (limits.offsite_configured ≡ true → str_eq (remote_path r) "" ≡ false))
unfolding age_out
age_out-due limits r present v run p = ground arith

found_present :
    (disk : Disk) (r : Record)
    → str_eq (local_path r) "" ≡ false
    → disk (local_path r) ≡ found
    → is_present disk r ≡ true
found_present disk r e f = rw (is_present-lookup disk r, e, f) refl

same_path-IsDue :
    (limits : Limits) (r : Record) (run : Run)
    → run.disk (local_path r) ≡ found
    → ((local_step limits r run).disk ≡ run.disk) ⊎ IsDue limits (local_path r) r
unfolding local_step
same_path-IsDue limits r run f = elim (Bool-cases (str_eq (local_path r) "")) [
  | inl e ↦ inl (rw e refl)
  | inr e ↦
      let present = found_present run.disk r e f in
      let answer =
        snapshot_retention_protects run.floor run.complete_kept (is_present run.disk r)
          (snapshot_is_complete r.instances) (not (ltb r.created_at limits.pin_cutoff)) in
      let seen : Run = record run { floor = answer.1; complete_kept = answer.2 } in
      elim (age_out-due limits r (is_present run.disk r) answer.0 seen present) [
        | inl same ↦ inl (rw e same)
        | inr (aged, copied) ↦ inr (record { named = refl; aged = aged; copied = copied })
      ]
]

local_step-IsDue :
    (limits : Limits) (r : Record) (run : Run) (p : String)
    → run.disk p ≡ found
    → ((local_step limits r run).disk p ≡ run.disk p) ⊎ IsDue limits p r
local_step-IsDue limits r run p f = elim (Bool-cases (str_eq (local_path r) p)) [
  | inl same ↦
      let e = str_eq→eq (local_path r) p same in
      elim (same_path-IsDue limits r run (rw e f)) [
        | inl kept ↦ inl (ap (λ (d : Disk). d p) kept)
        | inr due ↦ inr (record { named = e; aged = due.aged; copied = due.copied })
      ]
  | inr other ↦
      inl
        (local_step-other limits r run p (λ e. ground (arith, eq→str_eq (local_path r) p (sym e))))
]

-- A deletion leaves the file not there; a record of the list accounts for it.
pub local_loop-IsDue :
    (limits : Limits) (rs : List Record) (run : Run) (p : String)
    → run.disk p ≡ found
    → ((local_loop limits rs run).disk p ≡ found) ⊎ ((r : Record) × Memᴰ r rs × IsDue limits p r)
unfolding local_loop
local_loop-IsDue limits [] run p f = inl f
local_loop-IsDue limits (r ∷ rs) run p f = elim (local_step-IsDue limits r run p f) [
  | inr due ↦ inr (r, Memᴰ.head refl, due)
  | inl kept ↦ elim (local_loop-IsDue limits rs (local_step limits r run) p (kept ∙ f)) [
    | inl g ↦ inl g
    | inr (s, m, due) ↦ inr (s, Memᴰ.tail m, due)
  ]
]
