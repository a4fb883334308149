-- ===== src/CronTracker.antt =====
-- internal/daemon/cron_tasks.go: the queue that runs scheduled tasks one at a time. A task is its
-- instance name; the empty name says that nothing runs. The mutex makes each of the two critical
-- sections one step. What a task does once it has started is internal/operations/cron_task.go.
pub mod Queue
mod Tests
use oddk.Base.{
  Bool, true, false, Option, none, some, List, [], ◌∷◌, ◌++◌, String, str_eq, any, if◌then◌else◌, ℕ,
  length,
}

pub record Tracker : Type 0 where
  pub current_task : String
  pub pending_tasks : List String

pub new_cron_task_tracker : Tracker
new_cron_task_tracker = record { current_task = ""; pending_tasks = [] }

-- What a call answers, the task that it starts in a goroutine, if any, and the state after it.
pub record Answer : Type 0 where
  pub accepted : Bool
  pub start : Option String
  pub after : Tracker

abbrev pub contains : List String → String → Bool
contains names name = any (λ n. str_eq n name) names

unfoldable pub run_task : Tracker → String → Answer
run_task t name =
    if str_eq t.current_task name
    then record { accepted = false; start = none; after = t }
    else if contains t.pending_tasks name
    then record { accepted = false; start = none; after = t }
    else if str_eq t.current_task ""
    then record { accepted = true; start = some name; after = record t { current_task = name } }
    else record {
      accepted = true;
      start = none;
      after = record t { pending_tasks = t.pending_tasks ++ name ∷ [] };
    }

abbrev take_next : List String → Option String × Tracker
take_next [] = (none, record { current_task = ""; pending_tasks = [] })
take_next (next ∷ rest) = (some next, record { current_task = next; pending_tasks = rest })

-- The end of a task: the task that runs next, if any.
pub finish_task : Tracker → Option String × Tracker
finish_task t = take_next t.pending_tasks

pub get_status : Tracker → String × (ℕ × List String)
get_status t = (t.current_task, (length t.pending_tasks, t.pending_tasks))
