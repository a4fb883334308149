-- ===== src/Instances/Status/Classes.antt =====
-- The classification is complete, and agrees with the list that the schema's CHECK is built from.
use oddk.Base.{◌≡◌, refl, ◌↔◌, true, false, none, some, arith, Memᴰ, All, All-at}
use oddk.Instances.Status.{
  InstanceStatus, running, stopped, error, creating, restoring, switching, reconfiguring, upgrading,
  broken, broken_port, broken_auth, unknown, interrupted_remedy, is_derived, is_error, valid,
  all_statuses, Remedy,
}

valid-listed : (s : InstanceStatus) → valid s ≡ true → Memᴰ s all_statuses
unfolding valid all_statuses
valid-listed running h = Memᴰ.head refl
valid-listed (unknown t) h = cc
valid-listed _ h = search (Memᴰ.head, Memᴰ.tail) depth 13

all_statuses-valid : All (λ s. valid s ≡ true) all_statuses
unfolding valid all_statuses
all_statuses-valid = ground arith

-- A status is valid exactly when it is one of the values that the CHECK admits.
pub valid-iff-mem : (s : InstanceStatus) → (valid s ≡ true) ↔ Memᴰ s all_statuses
valid-iff-mem s = (valid-listed s, All-at (λ t. valid t ≡ true) all_statuses all_statuses-valid)

-- The three classes of a valid status.
pub data Class (s : InstanceStatus) : Type 0 where
  interrupted :
      (r : Remedy)
      → interrupted_remedy s ≡ some r
      → is_error s ≡ false
      → is_derived s ≡ false
      → Class s
  terminal : interrupted_remedy s ≡ none → is_error s ≡ true → is_derived s ≡ false → Class s
  derived : interrupted_remedy s ≡ none → is_error s ≡ false → is_derived s ≡ true → Class s

-- Every value that the CHECK admits is in exactly one of the classes.
pub mem-Class : (s : InstanceStatus) → Memᴰ s all_statuses → Class s
unfolding interrupted_remedy is_error is_derived valid
mem-Class running h = derived refl refl refl
mem-Class (unknown t) h = absurd (cc ((valid-iff-mem (unknown t)).1 h))
mem-Class stopped h = derived refl refl refl
mem-Class error h = terminal refl refl refl
mem-Class creating h = interrupted Remedy.recreate refl refl refl
mem-Class restoring h = interrupted Remedy.reapply_snapshot refl refl refl
mem-Class switching h = interrupted Remedy.rerun_switch refl refl refl
mem-Class reconfiguring h = interrupted Remedy.reapply_parameters refl refl refl
mem-Class upgrading h = interrupted Remedy.restore_backup refl refl refl
mem-Class broken h = derived refl refl refl
mem-Class broken_port h = derived refl refl refl
mem-Class broken_auth h = derived refl refl refl
