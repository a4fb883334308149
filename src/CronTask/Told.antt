-- ===== src/CronTask/Told.antt =====
-- The row, the message and the errors of a run, also where updates of the row are refused.
use oddk.Base.{
  ℕ, ◌≡◌, refl, ◌∙◌, arith, not, Bool, true, false, ◌&&◌, ◌||◌, Option, none, some, List, ◌∷◌,
  String, ltb, if◌then◌else◌, Result, ok, err,
}
use oddk.CronLogs.{CronLog, PhaseLog, fresh_log}
use oddk.CronReport.{
  failed_phase, recorded_phase, cron_log_failed, new_cron_run_reporter, finish, failed, recovered,
  phase, record_phase, updated, Message, Phase, Reporter, Outcome, backup, backup_upload,
  backup_cleanup, backup_remote_cleanup,
}
use oddk.CronTask.{
  status_of, Answers, outcome_of, upload_from, backup_from, task_outcomes, run_phases, execute_task,
}
use oddk.CronTask.Columns.{written, run_phases-status, run_phases-completed_at}

abbrev pub is_error : Option String → Bool
is_error none = false
is_error (some e) = true

abbrev pub backup_error : Result String ℕ → Bool
backup_error (ok id) = false
backup_error (err e) = true

abbrev pub new_backup : Result String ℕ → Bool
new_backup (ok id) = ltb 0 id
new_backup (err e) = false

-- An error of a phase that the run comes to.
abbrev pub any_error : Answers → Bool
any_error a =
    backup_error a.run_backup
    || (new_backup a.run_backup && is_error a.run_upload
        || (is_error a.run_local_cleanup || is_error a.run_remote_cleanup))

abbrev pub message_for : Bool → Bool → Option Message
message_for error previous =
    if error then some failed else if previous then some recovered else none

-- The row can tell the outcome of the phase.
abbrev pub heard : Answers → Phase → Bool
heard a p = not (a.update_refused p).0

-- An error of a phase that the run comes to and whose status the row has.
abbrev pub recorded_error : Answers → Bool
recorded_error a =
    (heard a backup && backup_error a.run_backup)
    || (new_backup a.run_backup && heard a backup_upload && is_error a.run_upload
        || ((heard a backup_cleanup && is_error a.run_local_cleanup)
            || (heard a backup_remote_cleanup && is_error a.run_remote_cleanup)))

-- The status of some phase is in the row.
abbrev pub any_recorded : Answers → Bool
any_recorded a =
    heard a backup
    || (new_backup a.run_backup && heard a backup_upload
        || (heard a backup_cleanup || heard a backup_remote_cleanup))

abbrev with_status : Option String → PhaseLog
with_status s = record { status = s; finished_at = none; error = none }

abbrev is_fail : Option String → Bool
is_fail s = failed_phase (with_status s)

abbrev is_set : Option String → Bool
is_set s = recorded_phase (with_status s)

-- How a row with these four statuses is read.
abbrev reads_failed : Option String → Option String → Option String → Option String → Bool
reads_failed b u l m =
    is_fail b
    || (is_fail u || (is_fail l || is_fail m))
    || not (is_set b || (is_set u || (is_set l || is_set m)))

cron_log_failed-reads :
    (l : CronLog)
    → cron_log_failed (some l)
      ≡ reads_failed l.backup.status l.backup_upload.status l.backup_cleanup.status
          l.backup_remote_cleanup.status
unfolding cron_log_failed
cron_log_failed-reads l = ground arith

completed-reads :
    (lost : Bool) (completed : ℕ) (l : CronLog)
    → cron_log_failed (some (updated lost l (λ m. record m { completed_at = some completed })))
      ≡ cron_log_failed (some l)
unfolding cron_log_failed
completed-reads true completed l = refl
completed-reads false completed l = refl

completed-at :
    (lost : Bool) (completed : ℕ) (l : CronLog)
    → l.completed_at ≡ none
    → (updated lost l (λ m. record m { completed_at = some completed })).completed_at
      ≡ (if lost then none else some completed)
completed-at true completed l e = e
completed-at false completed l e = refl

module _ (read_refused : Bool) (now id : ℕ) (name : String) (rows : List CronLog)
    (clock : Phase → ℕ) (completed : ℕ) (refused : Phase → Bool × (Bool × Bool)) (lost : Bool) where
  abbrev answers : Result String ℕ → Option String → Option String → Option String → Answers
  answers b u l m = record {
    run_backup = b;
    run_upload = u;
    run_local_cleanup = l;
    run_remote_cleanup = m;
    clock = clock;
    completed = completed;
    update_refused = refused;
    complete_refused = lost;
  }

  abbrev start : CronLog × Reporter
  start = (fresh_log now id name, new_cron_run_reporter read_refused name rows)

  -- What a run of these outcomes says, for a run with or without an error.
  abbrev Said : List Outcome → Bool → Type 0
  Said os error =
      finish (run_phases refused os start).1 ≡ message_for error start.1.previous_run_failed

  said_err :
      (e : String) (u l m : Option String) → Said (backup_from (answers (err e) u l m) (err e)) true
  unfolding run_phases phase record_phase finish new_cron_run_reporter
  said_err e u none none = refl
  said_err e u none (some z) = refl
  said_err e u (some y) none = refl
  said_err e u (some y) (some z) = refl

  said_ok :
      (b : Result String ℕ) (new : Bool) (u l m : Option String)
      → Said
          (outcome_of (answers b u l m) backup none ∷ upload_from (answers b u l m) new)
          (new && is_error u || (is_error l || is_error m))
  unfolding run_phases phase record_phase finish new_cron_run_reporter
  said_ok b true none none none = refl
  said_ok b true none none (some z) = refl
  said_ok b true none (some y) none = refl
  said_ok b true none (some y) (some z) = refl
  said_ok b true (some x) none none = refl
  said_ok b true (some x) none (some z) = refl
  said_ok b true (some x) (some y) none = refl
  said_ok b true (some x) (some y) (some z) = refl
  said_ok b false u none none = refl
  said_ok b false u none (some z) = refl
  said_ok b false u (some y) none = refl
  said_ok b false u (some y) (some z) = refl

  said :
      (b : Result String ℕ) (u l m : Option String)
      → Said (backup_from (answers b u l m) b) (any_error (answers b u l m))
  said (err e) u l m = said_err e u l m
  said (ok n) u l m = said_ok (ok n) (ltb 0 n) u l m

  -- How the columns that the outcomes leave are read.
  abbrev column_of : List Outcome → Phase → Option String
  column_of os p = written refused os p none

  abbrev reads : List Outcome → Bool
  reads os =
      reads_failed (column_of os backup) (column_of os backup_upload) (column_of os backup_cleanup)
        (column_of os backup_remote_cleanup)

  is_fail-status :
      (r : Bool) (e : Option String)
      → is_fail (if not r then some (status_of e) else none) ≡ (not r && is_error e)
  is_fail-status true e = refl
  is_fail-status false none = refl
  is_fail-status false (some x) = refl

  is_set-status : (r : Bool) (s : String) → is_set (if not r then some s else none) ≡ not r
  is_set-status true s = refl
  is_set-status false s = refl

  abbrev told_of : Bool → Option String → Option String
  told_of r e = if not r then some (status_of e) else none

  -- Four columns, of which those with a refusal are empty.
  reads-told :
      (rb ru rl rm : Bool) (b u l m : Option String)
      → reads_failed (told_of rb b) (told_of ru u) (told_of rl l) (told_of rm m)
        ≡ ((not rb && is_error b)
            || ((not ru && is_error u) || ((not rl && is_error l) || (not rm && is_error m))))
          || not (not rb || (not ru || (not rl || not rm)))
  reads-told rb ru rl rm b u l m =
      rw
        (
          is_fail-status rb b,
          is_fail-status ru u,
          is_fail-status rl l,
          is_fail-status rm m,
          is_set-status rb (status_of b),
          is_set-status ru (status_of u),
          is_set-status rl (status_of l),
          is_set-status rm (status_of m),
        )
        refl

  read_ok :
      (n : ℕ) (u l m : Option String) (new : Bool)
      → ltb 0 n ≡ new
      → reads
          (outcome_of (answers (ok n) u l m) backup none ∷ upload_from (answers (ok n) u l m) new)
        ≡ recorded_error (answers (ok n) u l m) || not (any_recorded (answers (ok n) u l m))
  read_ok n u l m true e =
      reads-told (refused backup).0 (refused backup_upload).0 (refused backup_cleanup).0
        (refused backup_remote_cleanup).0 none u l m
      ∙ rw e refl
  read_ok n u l m false e =
      reads-told (refused backup).0 true (refused backup_cleanup).0
        (refused backup_remote_cleanup).0 none u l m
      ∙ rw e refl

  read :
      (b : Result String ℕ) (u l m : Option String)
      → reads (backup_from (answers b u l m) b)
        ≡ recorded_error (answers b u l m) || not (any_recorded (answers b u l m))
  read (err e) u l m =
      reads-told (refused backup).0 true (refused backup_cleanup).0
        (refused backup_remote_cleanup).0 (some e) u l m
  read (ok n) u l m = read_ok n u l m (ltb 0 n) refl

  -- The row that a run of these outcomes leaves is read by its columns, completed or not.
  row-reads :
      (os : List Outcome)
      → cron_log_failed (
          some (
            updated lost
              (run_phases refused os start).0
              (λ l. record l { completed_at = some completed })))
        ≡ reads os
  row-reads os =
      let status = λ (p : Phase). run_phases-status refused os p start.0 start.1 in
      completed-reads lost completed (run_phases refused os start).0
      ∙ cron_log_failed-reads (run_phases refused os start).0
      ∙ rw
          (status backup, status backup_upload, status backup_cleanup, status backup_remote_cleanup)
          refl

-- A run whose row can be created sends the operator one message if some phase that the run came to
-- had an error, the failure; otherwise a recovery message if the latest earlier row could be read
-- and was a failure, and else none. Its row is completed unless that update is refused. Later runs
-- read it as failed exactly if such a phase had an error and the update of its status was not
-- refused, or no status was recorded at all.
pub execute_task-told :
    (read_refused : Bool) (now id : ℕ) (name : String) (rows : List CronLog) (a : Answers)
    → (row : CronLog) × (execute_task false read_refused now id name rows a
        ≡ some (
          row,
          message_for
              (any_error a)
              (new_cron_run_reporter read_refused name rows).previous_run_failed,
        ))
      × (row.completed_at ≡ (if a.complete_refused then none else some a.completed))
      × (cron_log_failed (some row) ≡ (recorded_error a || not (any_recorded a)))
unfolding execute_task task_outcomes
execute_task-told read_refused now id name rows a =
    let start : CronLog × Reporter =
      (fresh_log now id name, new_cron_run_reporter read_refused name rows) in
    let row = (run_phases a.update_refused (task_outcomes a) start).0 in
    let say =
      said read_refused now id name rows a.clock a.completed a.update_refused a.complete_refused
        a.run_backup a.run_upload a.run_local_cleanup a.run_remote_cleanup in
    (
      updated a.complete_refused row (λ l. record l { completed_at = some a.completed }),
      rw say refl,
      completed-at a.complete_refused a.completed row
          (run_phases-completed_at a.update_refused (task_outcomes a) start.0 start.1),
      row-reads read_refused now id name rows a.clock a.completed a.update_refused
            a.complete_refused (task_outcomes a)
          ∙ read read_refused now id name rows a.clock a.completed a.update_refused
              a.complete_refused a.run_backup a.run_upload a.run_local_cleanup a.run_remote_cleanup,
    )
