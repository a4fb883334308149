-- ===== src/CronLogs.antt =====
-- internal/store/cron: the table cron_logs, a row for each scheduled run. A statement that the
-- database refuses is an argument of its operation; `now` is the clock at the call.
pub mod Startup
mod Tests
use oddk.Base.{
  ℕ, ◌-◌, Bool, true, false, not, ◌&&◌, Option, none, some, List, [], ◌∷◌, ◌++◌, String, str_eq,
  ◌==◌, map, any, filter, take, if◌then◌else◌, ltb, leb, count_of,
}
use oddk.CronStore.{is_some}

-- The three columns of a phase, and a row of cron_logs.
pub record PhaseLog : Type 0 where
  pub status : Option String
  pub finished_at : Option ℕ
  pub error : Option String

pub record CronLog : Type 0 where
  pub id : ℕ
  pub instance_name : String
  pub started_at : ℕ
  pub completed_at : Option ℕ
  pub backup : PhaseLog
  pub backup_upload : PhaseLog
  pub backup_cleanup : PhaseLog
  pub backup_remote_cleanup : PhaseLog

abbrev pub unrecorded : PhaseLog
unrecorded = record { status = none; finished_at = none; error = none }

-- `id` is the next id of the table.
abbrev pub fresh_log : ℕ → ℕ → String → CronLog
fresh_log now id name = record {
  id = id;
  instance_name = name;
  started_at = now;
  completed_at = none;
  backup = unrecorded;
  backup_upload = unrecorded;
  backup_cleanup = unrecorded;
  backup_remote_cleanup = unrecorded;
}

pub create_log : Bool → ℕ → ℕ → String → List CronLog → Option (CronLog × List CronLog)
create_log refused now id name rows =
    let fresh = fresh_log now id name in if refused then none else some (fresh, rows ++ fresh ∷ [])

-- The columns that a caller sets, as a change of the row.
pub update_log : Bool → ℕ → (CronLog → CronLog) → List CronLog → Option (List CronLog)
update_log refused id f rows =
    if refused then none else some (map (λ (l : CronLog). if l.id == id then f l else l) rows)

pub complete_log : Bool → ℕ → ℕ → List CronLog → Option (List CronLog)
unfolding update_log
complete_log refused now id rows =
    update_log refused id (λ l. record l { completed_at = some now }) rows

abbrev pub of_instance : String → CronLog → Bool
of_instance name l = str_eq l.instance_name name

abbrev pub later_of : CronLog → Option CronLog → CronLog
later_of l none = l
later_of l (some m) = if ltb l.started_at m.started_at then m else l

-- ORDER BY started_at DESC LIMIT 1; of rows with one time, the first.
abbrev pub latest_of : List CronLog → Option CronLog
latest_of [] = none
latest_of (l ∷ rows) = some (later_of l (latest_of rows))

unfoldable pub get_latest_log_for_instance : Bool → String → List CronLog → Option (Option CronLog)
get_latest_log_for_instance refused name rows =
    if refused then none else some (latest_of (filter (of_instance name) rows))

unfoldable pub has_run_since : Bool → String → ℕ → List CronLog → Option Bool
has_run_since refused name cutoff rows =
    if refused
    then none
    else some (any (λ (l : CronLog). of_instance name l && ltb cutoff l.started_at) rows)

pub has_run_in_last_hour : Bool → ℕ → String → List CronLog → Option Bool
has_run_in_last_hour refused now name rows =
    if refused
    then none
    else some (any (λ (l : CronLog). of_instance name l && ltb (now - 3600) l.started_at) rows)

abbrev coalesce : Option String → String → Option String
coalesce none s = some s
coalesce (some t) s = some t

-- A run that was started and never completed, closed at startup.
unfoldable pub interrupt : ℕ → CronLog → CronLog
interrupt now l = record l {
  completed_at = some now;
  backup = record (l.backup) {
    status = coalesce l.backup.status "interrupted";
    error = coalesce l.backup.error "daemon stopped before this run finished";
  };
}

pub mark_interrupted_runs : Bool → ℕ → String → List CronLog → Option (ℕ × List CronLog)
mark_interrupted_runs refused now name rows =
    let open_run = λ (l : CronLog). of_instance name l && not (is_some l.completed_at) in
    if refused
    then none
    else some (count_of open_run rows, map (λ l. if open_run l then interrupt now l else l) rows)

pub cleanup_old_logs : Bool → ℕ → ℕ → List CronLog → Option (ℕ × List CronLog)
cleanup_old_logs refused now older_than rows =
    let old = λ (l : CronLog). ltb l.started_at (now - older_than) in
    if refused then none else some (count_of old rows, filter (λ l. not (old l)) rows)
