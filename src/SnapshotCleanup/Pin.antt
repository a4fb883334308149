-- ===== src/SnapshotCleanup/Pin.antt =====
-- The complete-archive pin: degraded captures do not age out the last archive that holds every
-- instance, while it is inside the pin window.
use oddk.Base.{
  ◌≤◌, ◌≡◌, ◌≢◌, refl, inl, inr, Bool, true, false, not, ◌&&◌, List, [], ◌∷◌, str_eq, arith, Memᴰ,
  Bool-cases, ltb, sym, ◌∙◌, ap, subst, All-at,
}
use oddk.Disk.{Disk}
use oddk.Retention.{
  RetentionFloor, RetentionVerdict, snapshot_retention_protects, snapshot_is_complete, is_kept,
}
use oddk.Snapshots.{Record, local_path}
use oddk.Newest.Order.{NewestFirst}
use oddk.SnapshotCleanup.{Limits, Run, age_out, local_step, local_loop, remove_local_snapshot}
use oddk.SnapshotCleanup.LocalFloor.{
  is_present, is_present-path, is_present-cong, age_out-kept, local_step-other, local_loop-other,
  OwnPaths, local_step-no_path,
}

abbrev pub is_complete : Record → Bool
is_complete r = snapshot_is_complete r.instances

-- A surviving complete archive inside the pin window.
pub record IsPinnable (limits : Limits) (disk : Disk) (r : Record) : Type 0 where
  pub present : is_present disk r ≡ true
  pub complete : is_complete r ≡ true
  pub young : limits.pin_cutoff ≤ r.created_at

pins_first :
    (f : RetentionFloor) (present complete eligible : Bool)
    → present ≡ true
    → complete ≡ true
    → eligible ≡ true
    → is_kept (snapshot_retention_protects f false present complete eligible).0.keep ≡ true
unfolding snapshot_retention_protects is_kept
pins_first f present complete eligible p c e = ground arith

waits_for_complete :
    (f : RetentionFloor) (kept present complete eligible : Bool)
    → (present && complete) ≡ false
    → (snapshot_retention_protects f kept present complete eligible).2 ≡ kept
unfolding snapshot_retention_protects
waits_for_complete f kept present complete eligible h = ground arith

age_out-complete_kept :
    (limits : Limits) (r : Record) (present : Bool) (v : RetentionVerdict) (run : Run)
    → (age_out limits r present v run).complete_kept ≡ run.complete_kept
unfolding age_out remove_local_snapshot
age_out-complete_kept limits r present v run = ground arith

eligible_test :
    (limits : Limits) (r : Record)
    → limits.pin_cutoff ≤ r.created_at
    → not (ltb r.created_at limits.pin_cutoff) ≡ true
eligible_test limits r h = ground arith

pinned_stays :
    (limits : Limits) (r : Record) (run : Run)
    → run.complete_kept ≡ false
    → IsPinnable limits run.disk r
    → (local_step limits r run).disk ≡ run.disk
unfolding local_step
pinned_stays limits r run none_yet h =
    let eligible = not (ltb r.created_at limits.pin_cutoff) in
    let answer =
      snapshot_retention_protects run.floor run.complete_kept (is_present run.disk r)
        (is_complete r) eligible in
    let seen : Run = record run { floor = answer.1; complete_kept = answer.2 } in
    let kept : is_kept answer.0.keep ≡ true = rw none_yet (
      pins_first run.floor (is_present run.disk r) (is_complete r) eligible h.present h.complete
        (eligible_test limits r h.young)) in
    rw (is_present-path run.disk r h.present)
      (ap (λ (s : Run). s.disk) (age_out-kept limits r (is_present run.disk r) answer.0 seen kept))

passed_over :
    (limits : Limits) (r : Record) (run : Run)
    → (is_present run.disk r && is_complete r) ≡ false
    → (local_step limits r run).complete_kept ≡ run.complete_kept
unfolding local_step
passed_over limits r run h = elim (Bool-cases (str_eq (local_path r) "")) [
  | inl e ↦ rw e refl
  | inr e ↦
      rw (e, age_out-complete_kept limits r)
        (waits_for_complete run.floor run.complete_kept (is_present run.disk r) (is_complete r)
          (not (ltb r.created_at limits.pin_cutoff)) h)
]

still_present :
    (limits : Limits) (x r : Record) (run : Run)
    → (str_eq (local_path x) "" ≡ false → local_path x ≢ local_path r)
    → is_present run.disk r ≡ true
    → is_present (local_step limits x run).disk r ≡ true
still_present limits x r run own p = elim (Bool-cases (str_eq (local_path x) "")) [
  | inl e ↦ rw (local_step-no_path limits x run e) p
  | inr e ↦
      is_present-cong (local_step limits x run).disk run.disk r
        (λ _. local_step-other limits x run (local_path r) (λ q. own e (sym q)))
      ∙ p
]

-- A complete archive that survives.
pub record Restorable (limits : Limits) (rs : List Record) (disk : Disk) : Type 0 where
  pub archive : Record
  pub listed : Memᴰ archive rs
  pub complete : is_complete archive ≡ true
  pub present : is_present disk archive ≡ true

head_stays :
    (limits : Limits) (x : Record) (rs : List Record) (run : Run)
    → OwnPaths (x ∷ rs)
    → run.complete_kept ≡ false
    → IsPinnable limits run.disk x
    → Restorable limits (x ∷ rs) (local_loop limits (x ∷ rs) run).disk
unfolding local_loop
head_stays limits x rs run own none_yet h =
    let run' = local_step limits x run in
    record {
      archive = x;
      listed = Memᴰ.head refl;
      complete = h.complete;
      present =
          is_present-cong (local_loop limits rs run').disk run'.disk x
            (λ e. local_loop-other limits rs run' (local_path x) (own.0 e))
          ∙ ap (λ (d : Disk). is_present d x) (pinned_stays limits x run none_yet h)
          ∙ h.present;
    }

later :
    (limits : Limits) (x : Record) (rs : List Record) (disk : Disk)
    → Restorable limits rs disk
    → Restorable limits (x ∷ rs) disk
later limits x rs disk h = record {
  archive = h.archive;
  listed = Memᴰ.tail h.listed;
  complete = h.complete;
  present = h.present;
}

-- With an archive to pin in the list, a complete archive survives.
pub local_loop-pin :
    (limits : Limits) (rs : List Record) (run : Run) {r : Record}
    → NewestFirst (λ s. s.created_at) rs
    → OwnPaths rs
    → run.complete_kept ≡ false
    → Memᴰ r rs
    → IsPinnable limits run.disk r
    → Restorable limits rs (local_loop limits rs run).disk
unfolding local_loop
local_loop-pin limits [] run sorted own none_yet m h = elim m [ ]
local_loop-pin limits (x ∷ rs) run sorted own none_yet (Memᴰ.head e) h =
    head_stays limits x rs run own none_yet (subst (IsPinnable limits run.disk) e h)
local_loop-pin limits (x ∷ rs) run {r} sorted own none_yet (Memᴰ.tail m) h =
    elim (Bool-cases (is_present run.disk x && is_complete x)) [
      | inl both ↦ head_stays limits x rs run own none_yet (record {
        present = ground arith;
        complete = ground arith;
        young = omega (arith, h.young, All-at (λ s. s.created_at ≤ x.created_at) rs sorted.0 m);
      })
      | inr not_both ↦ later limits x rs _ (
          local_loop-pin limits rs (local_step limits x run) sorted.1 own.1
            (passed_over limits x run not_both ∙ none_yet) m
            (record {
              present =
                  still_present limits x r run
                    (λ e. All-at (λ s. local_path x ≢ local_path s) rs (own.0 e) m) h.present;
              complete = h.complete;
              young = h.young;
            }))
    ]
