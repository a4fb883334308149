-- ===== src/Reconcile.antt =====
-- internal/daemon/reconcile.go: the startup pass that aligns each stored status with its container
-- (`reconcileInstances`, `decideReconcile`, `reconcileSetStatus`), and `GetContainerStatus` of
-- internal/docker/client.go. What Docker reports is an argument.
pub mod Decision
pub mod Pass
mod Tests
use oddk.Base.{
  ℕ, Bool, true, false, not, ◌&&◌, ◌||◌, Option, none, some, List, [], ◌∷◌, String, str_eq,
  if◌then◌else◌, Result, ok, err,
}
use oddk.Instances.{Instance, InstanceError, update_status}
use oddk.Instances.Status.{
  InstanceStatus, running, stopped, error, Remedy, interrupted_remedy, is_error, valid, same_status,
}

-- The flags of `inspect.Container.State`.
pub record ContainerFlags : Type 0 where
  pub paused : Bool
  pub restarting : Bool
  pub running : Bool

pub data Inspect : Type 0 where
  missing failed no_state : Inspect
  state : ContainerFlags → Inspect

-- `other ""` stands for an instance with no container id.
pub data ContainerState : Type 0 where
  up down paused restarting not_found : ContainerState
  other : String → ContainerState

-- `none` is the error result. A paused container is also flagged as running.
pub get_container_status : Inspect → Option ContainerState
get_container_status missing = some not_found
get_container_status failed = none
get_container_status no_state = none
get_container_status (state s) =
    if s.paused
    then some paused
    else if s.restarting
    then some restarting
    else if s.running
    then some up
    else some down

-- What the operator is told.
pub data Message : Type 0 where
  stuck : InstanceStatus → Remedy → Message
  unrecognised no_container container_gone now_up now_down : InstanceStatus → Message
  left_unchanged unexpected : ContainerState → InstanceStatus → Message

abbrev is_running : InstanceStatus → Bool
is_running running = true
is_running _ = false

abbrev is_stopped : InstanceStatus → Bool
is_stopped stopped = true
is_stopped _ = false

-- The final `switch`. `none` as the new status leaves the row alone.
decide_by_container : InstanceStatus → ContainerState → Option InstanceStatus × Option Message
unfolding is_error
decide_by_container s not_found =
    if is_error s then (none, none) else (some error, some (container_gone s))
decide_by_container s paused = (none, some (left_unchanged paused s))
decide_by_container s restarting = (none, some (left_unchanged restarting s))
decide_by_container s up =
    if is_error s
    then (none, none)
    else if is_running s
    then (none, none)
    else (some running, some (now_up s))
decide_by_container s down =
    if is_error s
    then (none, none)
    else if is_stopped s
    then (none, none)
    else (some stopped, some (now_down s))
decide_by_container s (other t) =
    if is_error s then (none, none) else (none, some (unexpected (other t) s))

decide_settled : InstanceStatus → String → ContainerState → Option InstanceStatus × Option Message
unfolding decide_by_container is_error valid
decide_settled s container_id cs =
    if not (valid s)
    then (some error, some (unrecognised s))
    else if str_eq container_id ""
    then (if is_error s then (none, none) else (some error, some (no_container s)))
    else decide_by_container s cs

pub decide_reconcile :
    InstanceStatus → String → ContainerState → Option InstanceStatus × Option Message
unfolding decide_settled interrupted_remedy
decide_reconcile s container_id cs = elim (interrupted_remedy s) [
  | some remedy ↦ (some error, some (stuck s remedy))
  | none ↦ decide_settled s container_id cs
]

-- What the host answers during the pass: Docker's inspection of a container, and the names for
-- which the database refuses the update.
pub record Host : Type 0 where
  pub inspect : String → Inspect
  pub update_refused : String → Bool
  pub now : ℕ

-- The container's state as the loop sees it; `none` skips the instance.
pub observed : Host → Instance → Option ContainerState
unfolding get_container_status
observed host inst =
    if str_eq inst.container_id ""
    then some (other "")
    else get_container_status (host.inspect inst.container_id)

-- `reconcileSetStatus`: an error is logged and the row stays.
pub reconcile_set_status : Host → String → InstanceStatus → List Instance → List Instance
unfolding update_status
reconcile_set_status host name status rows =
    elim (update_status (host.update_refused name) host.now name status rows) [
      | ok rows' ↦ rows'
      | err e ↦ rows
    ]

-- `newStatus != "" && newStatus != inst.Status`
pub apply_decision : Host → Instance → Option InstanceStatus → List Instance → List Instance
unfolding same_status
apply_decision host inst none rows = rows
apply_decision host inst (some status) rows =
    if not (same_status status inst.status)
    then reconcile_set_status host inst.name status rows
    else rows

pub reconcile_one : Host → Instance → List Instance → List Instance
reconcile_one host inst rows = elim (observed host inst) [
  | none ↦ rows
  | some cs ↦ apply_decision host inst (decide_reconcile inst.status inst.container_id cs).0 rows
]

pub reconcile_loop : Host → List Instance → List Instance → List Instance
reconcile_loop host [] rows = rows
reconcile_loop host (inst ∷ rest) rows = reconcile_loop host rest (reconcile_one host inst rows)

-- `list_fails`: the pass is skipped.
pub reconcile_instances : Bool → Host → List Instance → List Instance
reconcile_instances list_fails host rows =
    if list_fails then rows else reconcile_loop host rows rows
