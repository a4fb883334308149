-- ===== src/SnapshotApply/Rebuild.antt =====
-- internal/operations/snapshot_apply.go: the loop over the instances, with rebuildInstanceCluster of
-- snapshot_rebuild.go. What Docker, PostgreSQL, the file system and the database answer is the Target.
use oddk.Base.{
  ℕ, Bool, not, ◌&&◌, ◌||◌, Option, none, some, List, [], ◌∷◌, String, str_eq, if◌then◌else◌,
  Result, ok, err,
}
use oddk.Disk.{Disk}
use oddk.Instances.{Instance, InstanceError, marked, get, update_status, update_container_id}
use oddk.Instances.Status.{InstanceStatus, running, stopped, error, restoring}
use oddk.SnapshotMake.Members.{SnapshotInstanceEntry, entry_format, snapshot_format_physical}

-- The part of InstanceMeta that decides; `has_definition` is ParameterGroupDefinition != nil.
pub record InstanceMeta : Type 0 where
  pub name : String
  pub parameter_group : String
  pub has_definition : Bool

-- The statements about an instance's row.
pub data Statement : Type 0 where
  read_row mark_restoring mark_error record_container mark_final clear_container : Statement

-- Flags by the name of the instance say which call fails for it.
pub record Target : Type 0 where
  pub now : ℕ
  pub daemon_listens : Bool
  pub lock_held : Bool
  pub install_fails : Bool
  pub store_fails : Bool
  pub backup_dir : String
  pub disk : Disk
  pub backups_unreadable : Bool
  pub backup_update_fails : ℕ → Bool
  pub snapshots_unreadable : Bool
  pub snapshot_update_fails : ℕ → Bool
  pub plan_refused : Bool
  pub cron_refused : Bool
  pub refuses : Statement → String → Bool
  pub decrypts : String → Bool
  pub has_group : String → Bool
  pub has_logical_inputs : String → Bool
  pub create_fails : String → Bool
  pub container : String → String
  pub fill_fails : String → Bool
  pub start_fails : String → Bool
  pub ready_fails : String → Bool
  pub count_fails : String → Bool
  pub stop_fails : String → Bool
  pub adopt_fails : String → Bool
  pub restore_fails : String → Bool

pub data ApplyError : Type 0 where
  daemon_running data_dir_locked install open_store backup_history snapshot_history schedules :
      ApplyError
  instance_row database no_password no_parameter_group no_inputs docker : ApplyError

-- An error with the table as it is left.
abbrev pub Outcome : Type 0
Outcome = Option ApplyError × List Instance

abbrev pub on_update :
    List Instance → Result InstanceError (List Instance) → (List Instance → Outcome) → Outcome
on_update rows (err e) rest = (some database, rows)
on_update rows (ok after) rest = rest after

abbrev pub is_physical : SnapshotInstanceEntry → Bool
is_physical e = str_eq (entry_format e) snapshot_format_physical

abbrev pub is_cold : SnapshotInstanceEntry → Bool
is_cold e = is_physical e && str_eq e.capture_mode "cold"

-- What the row says in the end.
abbrev pub final_status : SnapshotInstanceEntry → InstanceStatus
final_status e = if is_cold e then stopped else running

-- The calls between the record of the container and the last status, of which none changes a row.
abbrev pub cluster_fails : Target → SnapshotInstanceEntry → String → Bool
cluster_fails t e name =
    if is_physical e
    then t.fill_fails name
      || t.start_fails name
      || t.ready_fails name
      || t.count_fails name
      || (is_cold e && t.stop_fails name)
    else t.start_fails name || t.ready_fails name || t.adopt_fails name || t.restore_fails name

abbrev pub finish_cluster : Target → SnapshotInstanceEntry → String → List Instance → Outcome
finish_cluster t e name rows =
    if cluster_fails t e name
    then (some docker, rows)
    else on_update rows (update_status (t.refuses mark_final name) t.now name (final_status e) rows)
        (λ after. (none, after))

unfoldable pub rebuild_instance_cluster :
    Target → SnapshotInstanceEntry → String → List Instance → Outcome
rebuild_instance_cluster t e name rows =
    if not (is_physical e) && not (t.has_logical_inputs name)
    then (some no_inputs, rows)
    else if t.create_fails name
    then (some docker, rows)
    else on_update rows
        (update_container_id (t.refuses record_container name) t.now name (t.container name) rows)
        (finish_cluster t e name)

-- The deferred statement: an error marks the row.
abbrev pub deferred : Target → String → Outcome → Outcome
deferred t name (none, rows) = (none, rows)
deferred t name (some e, rows) =
    (some e, marked rows (update_status (t.refuses mark_error name) t.now name error rows))

abbrev pub rebuild_marked :
    Target → InstanceMeta → SnapshotInstanceEntry → Instance → List Instance → Outcome
rebuild_marked t meta e row rows =
    if not (t.decrypts row.password)
    then (some no_password, rows)
    else if not meta.has_definition && not (t.has_group meta.parameter_group)
    then (some no_parameter_group, rows)
    else rebuild_instance_cluster t e meta.name rows

abbrev pub rebuild_row :
    Target
    → InstanceMeta
    → SnapshotInstanceEntry
    → List Instance
    → Result InstanceError Instance
    → Outcome
rebuild_row t meta e rows (err x) = (some instance_row, rows)
rebuild_row t meta e rows (ok row) =
    on_update rows
      (update_status (t.refuses mark_restoring meta.name) t.now meta.name restoring rows)
      (λ after. deferred t meta.name (rebuild_marked t meta e row after))

unfoldable pub rebuild_instance_from_snapshot :
    Target → InstanceMeta → SnapshotInstanceEntry → List Instance → Outcome
unfolding rebuild_instance_cluster
rebuild_instance_from_snapshot t meta e rows =
    rebuild_row t meta e rows (get (t.refuses read_row meta.name) meta.name rows)

unfoldable pub mark_instance_unbuilt : Target → String → List Instance → Outcome
mark_instance_unbuilt t name rows =
    on_update rows (update_container_id (t.refuses clear_container name) t.now name "" rows)
      (λ cleared.
        on_update cleared (update_status (t.refuses mark_error name) t.now name error cleared)
          (λ after. (none, after)))

-- `byName[meta.Name]`: of the entries of the name the last; an entry that is missing has no data.
unfoldable pub entry_of : List SnapshotInstanceEntry → String → Option SnapshotInstanceEntry
entry_of [] name = none
entry_of (e ∷ rest) name =
    let later = entry_of rest name in
    elim later [ some x ↦ some x | none ↦ if str_eq e.name name then some e else none ]

abbrev pub with_data : Option SnapshotInstanceEntry → Option SnapshotInstanceEntry
with_data none = none
with_data (some e) = if e.has_data then some e else none

-- The body of the loop over the instances, by the entry with data, if there is one.
abbrev pub apply_one :
    Target → InstanceMeta → Option SnapshotInstanceEntry → List Instance → Outcome
apply_one t meta none rows = mark_instance_unbuilt t meta.name rows
apply_one t meta (some e) rows = rebuild_instance_from_snapshot t meta e rows

abbrev pub go_on : Outcome → (List Instance → Outcome) → Outcome
go_on (some e, rows) rest = (some e, rows)
go_on (none, rows) rest = rest rows

unfoldable pub apply_instances :
    Target → List SnapshotInstanceEntry → List InstanceMeta → List Instance → Outcome
unfolding entry_of
apply_instances t entries [] rows = (none, rows)
apply_instances t entries (m ∷ rest) rows =
    go_on (apply_one t m (with_data (entry_of entries m.name)) rows)
      (λ after. apply_instances t entries rest after)
