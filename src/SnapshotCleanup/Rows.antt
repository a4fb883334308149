-- ===== src/SnapshotCleanup/Rows.antt =====
-- Local retention keeps the catalogue's schema.
use oddk.Base.{Result-cases, ◌≡◌, Bool, List, [], ◌∷◌, str_eq, arith, Bool-cases, inl, inr, ok}
use oddk.Retention.{RetentionVerdict}
use oddk.Disk.{remove_file}
use oddk.Snapshots.{Record, local_path, remote_path}
use oddk.Snapshots.Located.{IsCatalogue, delete-IsCatalogue, clear_local_location-IsCatalogue}
use oddk.SnapshotCleanup.{
  Faults, Limits, Run, forget_local, remove_local_snapshot, age_out, local_step, local_loop,
}

forget_local-IsCatalogue :
    (faults : Faults) (r : Record) (rows : List Record) {rows' : List Record}
    → IsCatalogue rows
    → forget_local faults r rows ≡ ok rows'
    → IsCatalogue rows'
unfolding forget_local
forget_local-IsCatalogue faults r rows h e = elim (Bool-cases (str_eq (remote_path r) "")) [
  | inl t ↦ delete-IsCatalogue faults.delete_fails rows r.id h (rw t at e)
  | inr t ↦ clear_local_location-IsCatalogue faults.clear_fails rows r.id h (rw t at e)
]

remove_local_snapshot-IsCatalogue :
    (faults : Faults) (r : Record) (run : Run)
    → IsCatalogue run.rows
    → IsCatalogue (remove_local_snapshot faults r run).1.rows
unfolding remove_local_snapshot
remove_local_snapshot-IsCatalogue faults r run h =
    elim (Bool-cases (remove_file faults.remove_refused run.disk (local_path r)).0) [
      | inr kept ↦ rw kept h
      | inl gone ↦ elim (Result-cases (forget_local faults r run.rows)) [
        | inl (x, e) ↦ rw (gone, e) h
        | inr (rows, e) ↦ rw (gone, e) (forget_local-IsCatalogue faults r run.rows h e)
      ]
    ]

age_out-IsCatalogue :
    (limits : Limits) (r : Record) (present : Bool) (v : RetentionVerdict) (run : Run)
    → IsCatalogue run.rows
    → IsCatalogue (age_out limits r present v run).rows
unfolding age_out
age_out-IsCatalogue limits r present v run h =
    ground (arith, remove_local_snapshot-IsCatalogue limits.faults r run h)

local_step-IsCatalogue :
    (limits : Limits) (r : Record) (run : Run)
    → IsCatalogue run.rows
    → IsCatalogue (local_step limits r run).rows
unfolding local_step
local_step-IsCatalogue limits r run h = elim (Bool-cases (str_eq (local_path r) "")) [
  | inl e ↦ rw e h
  | inr e ↦ rw e (age_out-IsCatalogue limits r _ _ _ h)
]

pub local_loop-IsCatalogue :
    (limits : Limits) (rs : List Record) (run : Run)
    → IsCatalogue run.rows
    → IsCatalogue (local_loop limits rs run).rows
unfolding local_loop
local_loop-IsCatalogue limits [] run h = h
local_loop-IsCatalogue limits (r ∷ rs) run h =
    local_loop-IsCatalogue limits rs (local_step limits r run)
      (local_step-IsCatalogue limits r run h)
