-- ===== src/Recreate/Reconfigure.antt =====
-- internal/operations/rdbms_reconfigure.go: a new parameter group, CPU, RAM or port for an instance,
-- with ValidateBasicResourceBounds of internal/util/resources.go. An int that is passed is not
-- negative; a negative one would be refused as 0 is.
use oddk.Base.{
  ℕ, Bool, true, false, not, ◌&&◌, ◌||◌, Option, none, some, List, String, str_eq, ltb, ◌==◌,
  if◌then◌else◌, Result, ok, err,
}
use oddk.Instances.{
  Instance, InstanceError, get, is_port_in_use, update_parameter_group, update_resources,
}
use oddk.Instances.Status.{error, reconfiguring, same_status}
use oddk.Recreate.Docker.{
  Engine, ClusterSpec, Parameter, spec_from_instance, read_row, read_port, record_group,
  record_resources,
}
use oddk.Recreate.{
  ChangeError, Outcome, instance_row, invalid, conflict, no_group, no_password, database, on_update,
  put_on, finished, apply_cluster_change,
}

-- A name that is "" and a number that is `none` are not set.
pub record Params : Type 0 where
  pub name : String
  pub parameter_group : String
  pub cpu_cores : Option ℕ
  pub ram_mb : Option ℕ
  pub port : Option ℕ

pub record Shape : Type 0 where
  pub group : String
  pub cpu_cores : ℕ
  pub ram_mb : ℕ
  pub port : ℕ

abbrev pub shape_of : Instance → Shape
shape_of inst = record {
  group = inst.parameter_group;
  cpu_cores = inst.cpu_cores;
  ram_mb = inst.ram_mb;
  port = inst.port;
}

abbrev pub same_resources : Shape → Instance → Bool
same_resources t inst =
    t.cpu_cores == inst.cpu_cores && t.ram_mb == inst.ram_mb && t.port == inst.port

abbrev pub same_as : Shape → Instance → Bool
same_as t inst = str_eq t.group inst.parameter_group && same_resources t inst

abbrev pub is_set : Option ℕ → Bool
is_set none = false
is_set (some n) = true

abbrev pub set_or : ℕ → Option ℕ → ℕ
set_or old none = old
set_or old (some n) = n

-- `err == nil`.
abbrev pub validate_basic_resource_bounds : ℕ → ℕ → Bool
validate_basic_resource_bounds cpu_cores ram_mb =
    not (ltb cpu_cores 1 || ltb 1024 cpu_cores) && not (ltb ram_mb 128 || ltb 1048576 ram_mb)

abbrev pub merged : Params → Instance → Shape
merged p inst = record {
  group = if str_eq p.parameter_group "" then inst.parameter_group else p.parameter_group;
  cpu_cores = set_or inst.cpu_cores p.cpu_cores;
  ram_mb = set_or inst.ram_mb p.ram_mb;
  port = set_or inst.port p.port;
}

abbrev pub port_answer :
    Engine → Shape → Result InstanceError (Bool × String) → Result ChangeError Shape
port_answer e t (err x) = err database
port_answer e t (ok (in_use, holder)) =
    if in_use || e.host_port_answers t.port then err conflict else ok t

abbrev pub check_port :
    Engine → Shape → Instance → Option ℕ → List Instance → Result ChangeError Shape
check_port e t inst none rows = ok t
check_port e t inst (some port) rows =
    if ltb port 1 || ltb 65535 port
    then err invalid
    else if port == inst.port
    then ok t
    else port_answer e t (is_port_in_use (e.refuses read_port) port rows)

-- The checks, before the container is touched.
unfoldable pub resolve_target :
    Engine → Params → Instance → List Instance → Result ChangeError Shape
resolve_target e p inst rows =
    let t = merged p inst in
    if str_eq p.parameter_group "" && not (is_set p.cpu_cores || is_set p.ram_mb || is_set p.port)
    then err invalid
    else if (is_set p.cpu_cores || is_set p.ram_mb)
        && not (
            validate_basic_resource_bounds t.cpu_cores t.ram_mb
            && e.system_has t.cpu_cores t.ram_mb)
    then err invalid
    else check_port e t inst p.port rows

abbrev pub commit_resources : Engine → Instance → Shape → List Instance → Outcome
commit_resources e inst t rows =
    if same_resources t inst
    then finished e inst.name rows
    else on_update rows
        (update_resources (e.refuses record_resources) e.now inst.name t.port t.cpu_cores t.ram_mb
          rows)
        (finished e inst.name)

abbrev pub commit_shape : Engine → Instance → Shape → List Instance → Outcome
commit_shape e inst t rows =
    if str_eq t.group inst.parameter_group
    then commit_resources e inst t rows
    else on_update rows
        (update_parameter_group (e.refuses record_group) e.now inst.name t.group rows)
        (commit_resources e inst t)

abbrev pub next_spec : ClusterSpec → Shape → List Parameter → ClusterSpec
next_spec prev t parameters = record prev {
  parameter_group = t.group;
  parameters = parameters;
  cpu_cores = t.cpu_cores;
  ram_mb = t.ram_mb;
  port = t.port;
}

abbrev pub reconfigure_with :
    Engine
    → Instance
    → Shape
    → Option (List Parameter)
    → Option (List Parameter)
    → Option String
    → List Instance
    → Outcome
reconfigure_with e inst t none current password rows = (some invalid, rows)
reconfigure_with e inst t (some parameters) none password rows = (some no_group, rows)
reconfigure_with e inst t (some parameters) (some current) none rows = (some no_password, rows)
reconfigure_with e inst t (some parameters) (some current) (some password) rows =
    let prev = spec_from_instance inst password current in
    put_on e inst (next_spec prev t parameters) prev reconfiguring (commit_shape e inst t) rows

abbrev pub reconfigure_to : Engine → Instance → List Instance → Result ChangeError Shape → Outcome
reconfigure_to e inst rows (err x) = (some x, rows)
reconfigure_to e inst rows (ok t) =
    if same_as t inst && not (same_status inst.status error)
    then (some invalid, rows)
    else reconfigure_with e inst t (e.group t.group) (e.group inst.parameter_group)
        (e.decrypted inst.password) rows

abbrev pub reconfigure_row :
    Engine → Params → List Instance → Result InstanceError Instance → Outcome
reconfigure_row e p rows (err x) = (some instance_row, rows)
reconfigure_row e p rows (ok inst) = reconfigure_to e inst rows (resolve_target e p inst rows)

-- Execute of ReconfigureRDBMSOp.
unfoldable pub reconfigure : Engine → Params → List Instance → Outcome
unfolding apply_cluster_change resolve_target
reconfigure e p rows = reconfigure_row e p rows (get (e.refuses read_row) p.name rows)
