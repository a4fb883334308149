-- ===== src/SnapshotMake/Staging.antt =====
-- internal/operations/snapshot_make.go: decideCapture and stageAllInstances. What Docker, the dumps, the
-- file system and the archiver answer is the World.
use oddk.Base.{
  ℕ, Bool, true, false, not, ◌&&◌, Option, none, some, List, [], ◌∷◌, ◌++◌, String, str_eq,
  if◌then◌else◌, Result, ok, err, ◌>>=◌,
}
use oddk.Instances.{Instance}
use oddk.SnapshotMake.Members.{
  Member, SnapshotInstanceEntry, SkipReason, Stage, snapshot_format_physical,
  snapshot_format_logical,
}

-- `none` is an error.
unfoldable pub normalize_snapshot_format : String → Option String
normalize_snapshot_format s =
    if str_eq s ""
    then some snapshot_format_physical
    else if str_eq s snapshot_format_physical
    then some snapshot_format_physical
    else if str_eq s snapshot_format_logical
    then some snapshot_format_logical
    else none

pub data CaptureAction : Type 0 where
  config_only basebackup cold logical_dump : CaptureAction

-- The three results of `decideCapture`; the reason is `none` for the empty text.
pub record Decision : Type 0 where
  pub action : CaptureAction
  pub reason : Option SkipReason
  pub anomalous : Bool

abbrev pub skip : SkipReason → Bool → Decision
skip reason anomalous = record { action = config_only; reason = some reason; anomalous = anomalous }

abbrev pub take_by : CaptureAction → Decision
take_by action = record { action = action; reason = none; anomalous = false }

abbrev pub decide_physical : String → Decision
decide_physical actual =
    if str_eq actual "running"
    then take_by basebackup
    else if str_eq actual "stopped"
    then take_by cold
    else skip SkipReason.unsettled true

abbrev pub decide_logical : String → Decision
decide_logical actual =
    if str_eq actual "running" then take_by logical_dump else skip SkipReason.needs_live false

abbrev pub decide_state : String → Option String → Decision
decide_state format none = skip SkipReason.state_unknown true
decide_state format (some actual) =
    if str_eq actual "not found"
    then skip SkipReason.container_gone true
    else if str_eq format snapshot_format_physical
    then decide_physical actual
    else decide_logical actual

-- The format, the container's id, and its state; `none` is an error of the question. The stored
-- status only shows in texts.
unfoldable pub decide_capture : String → String → Option String → Decision
decide_capture format container_id actual =
    if str_eq container_id ""
    then skip SkipReason.no_container false
    else decide_state format actual

-- SnapshotCaptureFailure, without its text.
pub record SnapshotCaptureFailure : Type 0 where
  pub instance_name : String
  pub stage : Stage

-- Which calls fail, by the name of the instance; a password is decrypted or not.
pub record World : Type 0 where
  pub now : ℕ
  pub container_status : String → Option String
  pub mkdir_fails : String → Bool
  pub metadata_fails : String → Bool
  pub decrypts : String → Bool
  pub base_backup_fails : String → Bool
  pub cold_copy_fails : String → Bool
  pub dump_fails : String → Bool
  pub backup_dir_missing : Bool
  pub archive_path : String
  pub staging_refused : Bool
  pub vacuum_fails : Bool
  pub migrations_fail : Bool
  pub manifest_fails : Bool
  -- The members of the archive as they are read back; `none` is an error of writing it.
  pub written : List SnapshotInstanceEntry → Option (List Member)
  pub record_refused : Bool
  pub next_id : ℕ

pub data MakeError : Type 0 where
  no_backup_dir unknown_format already_exists staging store_copy migrations manifest archive :
      MakeError
  instances : MakeError

-- The stage at which the capture of the instance fails; `none` if it succeeds.
abbrev pub attempt : World → CaptureAction → Instance → Option Stage
attempt w config_only i = none
attempt w basebackup i =
    if not (w.decrypts i.password)
    then some Stage.decrypt_password
    else if w.base_backup_fails i.name
    then some Stage.base_backup
    else none
attempt w cold i = if w.cold_copy_fails i.name then some Stage.cold_copy else none
attempt w logical_dump i =
    if not (w.decrypts i.password)
    then some Stage.decrypt_password
    else if w.dump_fails i.name
    then some Stage.dump
    else none

abbrev pub capture_mode_of : CaptureAction → String
capture_mode_of basebackup = "basebackup"
capture_mode_of cold = "cold"
capture_mode_of _ = ""

abbrev pub config_entry : String → Instance → Option SkipReason → SnapshotInstanceEntry
config_entry format i reason = record {
  name = i.name;
  version = i.version;
  image = i.image;
  has_data = false;
  format = format;
  capture_mode = "";
  skip_reason = reason;
}

abbrev pub failure : Instance → Stage → List SnapshotCaptureFailure
failure i stage = record { instance_name = i.name; stage = stage } ∷ []

-- An entry, and the failures that are reported with it.
abbrev pub Staged : Type 0
Staged = SnapshotInstanceEntry × List SnapshotCaptureFailure

abbrev pub attempted : String → Instance → CaptureAction → Option Stage → Staged
attempted format i action none = (
  record (config_entry format i none) { has_data = true; capture_mode = capture_mode_of action },
  [],
)
attempted format i action (some stage) =
    (config_entry format i (some (SkipReason.failed stage)), failure i stage)

-- The `switch` on the action.
abbrev pub staged_by : World → String → Instance → CaptureAction → Decision → Staged
staged_by w format i config_only d =
    (config_entry format i d.reason, if d.anomalous then failure i Stage.capture else [])
staged_by w format i action d = attempted format i action (attempt w action i)

abbrev pub writes_metadata : CaptureAction → Bool
writes_metadata logical_dump = false
writes_metadata _ = true

-- The body of the loop.
unfoldable pub stage_instance : World → String → Instance → Result MakeError Staged
unfolding decide_capture
stage_instance w format i =
    let d = decide_capture format i.container_id (w.container_status i.container_id) in
    if w.mkdir_fails i.name
    then err staging
    else if writes_metadata d.action && w.metadata_fails i.name
    then err staging
    else ok (staged_by w format i d.action d)

abbrev pub AllStaged : Type 0
AllStaged = List SnapshotInstanceEntry × List SnapshotCaptureFailure

unfoldable pub stage_from : World → String → List Instance → AllStaged → Result MakeError AllStaged
stage_from w format [] so_far = ok so_far
stage_from w format (i ∷ rest) so_far = stage_instance w format i >>= λ (entry, failures).
    stage_from w format rest (so_far.0 ++ entry ∷ [], so_far.1 ++ failures)

-- `none` for the rows is an error of listing them.
unfoldable pub stage_all_instances :
    World → String → Option (List Instance) → Result MakeError AllStaged
stage_all_instances w format none = err instances
stage_all_instances w format (some rows) = stage_from w format rows ([], [])
