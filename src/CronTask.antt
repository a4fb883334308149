-- ===== src/CronTask.antt =====
-- internal/operations/cron_task.go: CronTaskOp.Execute, a scheduled backup of one instance as the
-- sequence of its phases. What a phase's work answers is an argument, and so is which updates of the
-- row the database refuses, which are only logged. Retries of old uploads record no phase and are
-- left out.
pub mod Columns
pub mod Told
mod Tests
use oddk.Base.{
  ℕ, Bool, true, false, Option, none, some, List, [], ◌∷◌, String, ltb, if◌then◌else◌, Result, ok,
  err,
}
use oddk.CronLogs.{CronLog, fresh_log}
use oddk.CronReport.{
  Phase, backup, backup_upload, backup_cleanup, backup_remote_cleanup, Outcome, Reporter, Message,
  phase, updated, new_cron_run_reporter, finish,
}

-- An error, or the id of the new backup, 0 if there is none; the error of each other phase, if it
-- has one; the clock at the end of each phase and of the run; and the refusals of the three updates
-- of a phase and of the row's completion.
pub record Answers : Type 0 where
  pub run_backup : Result String ℕ
  pub run_upload : Option String
  pub run_local_cleanup : Option String
  pub run_remote_cleanup : Option String
  pub clock : Phase → ℕ
  pub completed : ℕ
  pub update_refused : Phase → Bool × (Bool × Bool)
  pub complete_refused : Bool

abbrev pub status_of : Option String → String
status_of none = "ok"
status_of (some e) = "fail"

abbrev pub outcome_of : Answers → Phase → Option String → Outcome
outcome_of a name cause = record {
  name = name;
  status = status_of cause;
  finished_at = a.clock name;
  cause = cause;
}

abbrev pub cleanups : Answers → List Outcome
cleanups a =
    outcome_of a backup_cleanup a.run_local_cleanup
    ∷ outcome_of a backup_remote_cleanup a.run_remote_cleanup
    ∷ []

abbrev pub upload_from : Answers → Bool → List Outcome
upload_from a true = outcome_of a backup_upload a.run_upload ∷ cleanups a
upload_from a false = cleanups a

-- An upload needs a new backup; both cleanups run in any case.
abbrev pub backup_from : Answers → Result String ℕ → List Outcome
backup_from a (err e) = outcome_of a backup (some e) ∷ cleanups a
backup_from a (ok id) = outcome_of a backup none ∷ upload_from a (ltb 0 id)

pub task_outcomes : Answers → List Outcome
task_outcomes a = backup_from a a.run_backup

-- The phases in order, each with the refusals of its updates.
unfoldable pub run_phases :
    (Phase → Bool × (Bool × Bool)) → List Outcome → CronLog × Reporter → CronLog × Reporter
unfolding phase
run_phases refused [] run = run
run_phases refused (o ∷ rest) run = run_phases refused rest (phase (refused o.name) o run)

-- The row as the run leaves it, and the message. `none` is a row that cannot be created, which ends
-- the run before its first phase. The rows of earlier runs are `rows`.
pub execute_task :
    Bool → Bool → ℕ → ℕ → String → List CronLog → Answers → Option (CronLog × Option Message)
unfolding task_outcomes run_phases
execute_task create_refused read_refused now id name rows a =
    let run =
      run_phases a.update_refused (task_outcomes a)
        (fresh_log now id name, new_cron_run_reporter read_refused name rows) in
    if create_refused
    then none
    else some (
      updated a.complete_refused run.0 (λ l. record l { completed_at = some a.completed }),
      finish run.1,
    )
