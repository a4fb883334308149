-- ===== src/Recreate/Docker.antt =====
-- internal/operations/cluster_recreate.go: the calls of Docker, with RecreateContainer of
-- internal/docker/client.go. What Docker, PostgreSQL, the host and the database answer is the Engine:
-- a change asks Docker more than once, and the answers may differ by the attempt. What a call
-- does to the containers is not followed.
use Prim.Native.String
use oddk.Base.{
  ℕ, Bool, false, not, ◌&&◌, ◌||◌, Option, none, some, List, [], ◌∷◌, String, str_eq, if◌then◌else◌,
  Result, ok, err,
}
use oddk.Instances.{Instance}
use oddk.Parameters.{ResolvedParameter, validate_for_container}

pub record Parameter : Type 0 where
  pub group_name : String
  pub name : String
  pub parameter_type : String
  pub value_type : String
  pub value : String
  pub created_at : String

pub record ClusterSpec : Type 0 where
  pub name : String
  pub version : String
  pub image : String
  pub port : ℕ
  pub password : String
  pub cpu_cores : ℕ
  pub ram_mb : ℕ
  pub parameter_group : String
  pub parameters : List Parameter

abbrev pub spec_from_instance : Instance → String → List Parameter → ClusterSpec
spec_from_instance inst password parameters = record {
  name = inst.name;
  version = inst.version;
  image = inst.image;
  port = inst.port;
  password = password;
  cpu_cores = inst.cpu_cores;
  ram_mb = inst.ram_mb;
  parameter_group = inst.parameter_group;
  parameters = parameters;
}

pub data Attempt : Type 0 where
  forward rollback : Attempt

-- The statements about rows of instances.
pub data Statement : Type 0 where
  mark_broken record_orphan record_restored mark_unrecorded mark_rolled_back record_created :
      Statement
  read_row read_port mark_changing restore_status record_group record_resources record_image :
      Statement
  mark_running read_updated : Statement

-- What GetContainerImageID answers.
pub data ImageAnswer : Type 0 where
  not_found unreadable : ImageAnswer
  image : String → ImageAnswer

pub record Engine : Type 0 where
  pub now : ℕ
  pub refuses : Statement → Bool
  pub group : String → Option (List Parameter)
  pub decrypted : String → Option String
  pub system_has : ℕ → ℕ → Bool
  pub host_port_answers : ℕ → Bool
  pub image_of : String → ImageAnswer
  pub has_previous_image : String → Bool
  pub has_image : Attempt → String → Bool
  pub resolved : List Parameter → ℕ → ℕ → Option (List ResolvedParameter)
  pub has_volume : Attempt → String → Bool
  pub is_running : Attempt → String → Bool
  pub stop_fails : Attempt → String → Bool
  pub remove_fails : Attempt → String → Bool
  pub created : Attempt → ClusterSpec → Option String
  pub start_fails : String → Bool
  pub ready_fails : String → Bool

-- An error of RecreateContainer: it wraps ErrPreflight, or the old container may be gone.
pub data RecreateError : Type 0 where
  preflight failed : RecreateError

abbrev pub container_name : String → String
container_name name = String.◌++◌ "oddk-pg-" name

abbrev pub volume_name : String → String
volume_name name = String.◌++◌ "oddk-data-" name

-- ResolveParameters and ValidateForContainer.
abbrev pub fits : Option (List ResolvedParameter) → ℕ → Bool
fits none ram_mb = false
fits (some resolved) ram_mb = validate_for_container resolved ram_mb

abbrev pub or_failed : Option String → Result RecreateError String
or_failed none = err failed
or_failed (some id) = ok id

-- Stopping and removing the old container, if an id is known.
abbrev pub old_stays : Engine → Attempt → String → Bool
old_stays e a old =
    not (str_eq old "") && ((e.is_running a old && e.stop_fails a old) || e.remove_fails a old)

unfoldable pub recreate_container :
    Engine → Attempt → ClusterSpec → String → Result RecreateError String
recreate_container e a spec old =
    if not (e.has_image a spec.image)
    then err preflight
    else if not (fits (e.resolved spec.parameters spec.cpu_cores spec.ram_mb) spec.ram_mb)
    then err preflight
    else if not (e.has_volume a (volume_name spec.name))
    then err preflight
    else if old_stays e a old
    then err failed
    else if e.remove_fails a (container_name spec.name)
    then err failed
    else or_failed (e.created a spec)

abbrev pub started : Engine → Result RecreateError String → String × Option RecreateError
started e (err x) = ("", some x)
started e (ok id) = if e.start_fails id || e.ready_fails id then (id, some failed) else (id, none)

-- The id, which is set whenever a container was made, and the error.
unfoldable pub recreate_start_ready :
    Engine → Attempt → ClusterSpec → String → String × Option RecreateError
unfolding recreate_container
recreate_start_ready e a spec old = started e (recreate_container e a spec old)

-- `prev` with the image that its container uses; `none` is a refusal. The references are tried in
-- order, and a container that is not there leaves the image of the row.
abbrev pub pinned_to : Engine → ImageAnswer → ClusterSpec → Option ClusterSpec → Option ClusterSpec
pinned_to e not_found prev rest = rest
pinned_to e unreadable prev rest = none
pinned_to e (image i) prev rest =
    if e.has_previous_image i then some (record prev { image = i }) else none

unfoldable pub pin_image : Engine → List String → ClusterSpec → Option ClusterSpec
pin_image e [] prev = some prev
pin_image e (ref ∷ refs) prev =
    let rest = pin_image e refs prev in
    if str_eq ref "" then rest else pinned_to e (e.image_of ref) prev rest
