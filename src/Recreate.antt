-- ===== src/Recreate.antt =====
-- internal/operations/cluster_recreate.go: applyClusterChange, and its use by rdbms_recreate.go to put
-- an instance on another image. Recreate.Reconfigure is rdbms_reconfigure.go.
pub mod Docker
pub mod Reconfigure
pub mod Leaves
pub mod Changed
pub mod Committed
pub mod Finished
pub mod Shaped
pub mod Settled
pub mod OtherImage
mod Tests
use oddk.Base.{
  Bool, true, false, Option, none, some, List, [], ◌∷◌, String, str_eq, if◌then◌else◌, Result, ok,
  err,
}
use oddk.Instances.{
  Instance, InstanceError, marked, get, update_status, update_container_id, update_image,
}
use oddk.Instances.Status.{InstanceStatus, running, error, switching, same_status}
use Docker.{
  Engine, ClusterSpec, RecreateError, preflight, failed, forward, rollback, recreate_start_ready,
  pin_image, container_name, spec_from_instance, Parameter, mark_broken, record_orphan,
  record_restored, mark_unrecorded, mark_rolled_back, record_created, restore_status, mark_changing,
  record_image, mark_running, read_updated,
}

-- `invalid` is what wraps ErrInvalid, `conflict` ErrConflict. A change that could not start was rolled
-- back, or the rollback failed too, or its container could not be recorded.
pub data ChangeError : Type 0 where
  instance_row invalid conflict no_group no_password database : ChangeError
  rolled_back unrecorded broken : ChangeError

abbrev pub Outcome : Type 0
Outcome = Option ChangeError × List Instance

-- The rest after a write whose refusal is an error.
abbrev pub on_update :
    List Instance → Result InstanceError (List Instance) → (List Instance → Outcome) → Outcome
on_update rows (err e) rest = (some database, rows)
on_update rows (ok after) rest = rest after

abbrev pub on_restored :
    List Instance
    → Result InstanceError (List Instance)
    → Outcome
    → (List Instance → Outcome)
    → Outcome
on_restored rows (err e) lost rest = lost
on_restored rows (ok after) lost rest = rest after

-- The container that the failed rollback leaves: `id` is the forward one, `rb_id` that of the rollback.
abbrev pub orphan : String → String → String
orphan rb_id id = if str_eq rb_id "" then id else rb_id

abbrev pub record_orphan_id : Engine → String → String → List Instance → List Instance
record_orphan_id e name id rows =
    if str_eq id ""
    then rows
    else marked rows (update_container_id (e.refuses record_orphan) e.now name id rows)

abbrev pub after_rollback :
    Engine → String → String → String × Option RecreateError → List Instance → Outcome
after_rollback e name id (rb_id, some x) rows = (
  some broken,
  record_orphan_id e name (orphan rb_id id)
      (marked rows (update_status (e.refuses mark_broken) e.now name error rows)),
)
after_rollback e name id (rb_id, none) rows =
    on_restored rows (update_container_id (e.refuses record_restored) e.now name rb_id rows)
      (
        some unrecorded,
        marked rows (update_status (e.refuses mark_unrecorded) e.now name error rows),
      )
      (λ after. (
        some rolled_back,
        marked after (update_status (e.refuses mark_rolled_back) e.now name running after),
      ))

abbrev pub after_forward :
    Engine → String → ClusterSpec → String × Option RecreateError → List Instance → Outcome
after_forward e name prev (id, some preflight) rows = (some invalid, rows)
after_forward e name prev (id, some failed) rows =
    after_rollback e name id (recreate_start_ready e rollback prev id) rows
after_forward e name prev (id, none) rows =
    on_update rows (update_container_id (e.refuses record_created) e.now name id rows)
      (λ after. (none, after))

abbrev pub after_pin : Engine → ClusterSpec → Option ClusterSpec → String → List Instance → Outcome
after_pin e next none old rows = (some invalid, rows)
after_pin e next (some prev) old rows =
    after_forward e next.name prev (recreate_start_ready e forward next old) rows

-- The returned flag is the error's being `rolled_back` or `unrecorded`.
unfoldable pub apply_cluster_change :
    Engine → ClusterSpec → ClusterSpec → String → List Instance → Outcome
unfolding recreate_start_ready pin_image
apply_cluster_change e next prev old rows =
    after_pin e next (pin_image e (old ∷ container_name prev.name ∷ []) prev) old rows

-- What the callers do with the outcome: a refusal restores the status, unless it was `error`.
abbrev pub with_status_back : Engine → Instance → List Instance → List Instance
with_status_back e inst rows =
    if same_status inst.status error
    then rows
    else marked rows (update_status (e.refuses restore_status) e.now inst.name inst.status rows)

abbrev pub committed : Engine → Instance → (List Instance → Outcome) → Outcome → Outcome
committed e inst commit (none, rows) = commit rows
committed e inst commit (some invalid, rows) = (some invalid, with_status_back e inst rows)
committed e inst commit (some x, rows) = (some x, rows)

abbrev pub read_back : List Instance → Result InstanceError Instance → Outcome
read_back rows (err x) = (some database, rows)
read_back rows (ok r) = (none, rows)

abbrev pub finished : Engine → String → List Instance → Outcome
finished e name rows =
    on_update rows (update_status (e.refuses mark_running) e.now name running rows)
      (λ after. read_back after (get (e.refuses read_updated) name after))

abbrev pub put_on :
    Engine
    → Instance
    → ClusterSpec
    → ClusterSpec
    → InstanceStatus
    → (List Instance → Outcome)
    → List Instance
    → Outcome
put_on e inst next prev status commit rows = committed e inst commit (
    apply_cluster_change e next prev inst.container_id
      (marked rows (update_status (e.refuses mark_changing) e.now inst.name status rows)))

abbrev pub recreate_with :
    Engine
    → Instance
    → String
    → String
    → Option String
    → Option (List Parameter)
    → List Instance
    → Outcome
recreate_with e inst image version none group rows = (some no_password, rows)
recreate_with e inst image version (some password) none rows = (some no_group, rows)
recreate_with e inst image version (some password) (some parameters) rows =
    let prev = spec_from_instance inst password parameters in
    put_on e inst (record prev { image = image; version = version }) prev switching
      (λ applied.
        on_update applied
          (update_image (e.refuses record_image) e.now inst.name image version applied)
          (finished e inst.name))
      rows

unfoldable pub recreate_instance_on_image :
    Engine → Instance → String → String → List Instance → Outcome
unfolding apply_cluster_change
recreate_instance_on_image e inst new_image new_version rows =
    recreate_with e inst new_image new_version (e.decrypted inst.password)
      (e.group inst.parameter_group) rows
