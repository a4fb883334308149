-- ===== src/Snapshots/Schedule.antt =====
-- The table snapshot_plans of internal/store/snapshot/snapshot.go, which has one row at most. A
-- statement that the database refuses is an argument.
use oddk.Base.{ℕ, Bool, Option, none, some, if◌then◌else◌, Result, ok, err}
use oddk.Snapshots.Plan.{Plan}

pub data ScheduleError : Type 0 where
  database no_snapshot_plan : ScheduleError

abbrev scheduled_as : ℕ → ℕ → Option Plan → Plan
scheduled_as hour interval none = record {
  utc_hour = hour;
  interval_hours = interval;
  paused_at = none;
}
scheduled_as hour interval (some p) = record p { utc_hour = hour; interval_hours = interval }

-- The pause of a plan that is there already stays.
unfoldable pub set_plan : Bool → ℕ → ℕ → Option Plan → Result ScheduleError (Option Plan)
set_plan refused hour interval table =
    if refused then err database else ok (some (scheduled_as hour interval table))

unfoldable pub get_plan : Bool → Option Plan → Result ScheduleError (Option Plan)
get_plan refused table = if refused then err database else ok table

abbrev updated : (Plan → Plan) → Option Plan → Result ScheduleError (Option Plan)
updated f none = err no_snapshot_plan
updated f (some p) = ok (some (f p))

unfoldable pub pause_plan : Bool → ℕ → Option Plan → Result ScheduleError (Option Plan)
pause_plan refused now table =
    if refused then err database else updated (λ p. record p { paused_at = some now }) table

unfoldable pub resume_plan : Bool → Option Plan → Result ScheduleError (Option Plan)
resume_plan refused table =
    if refused then err database else updated (λ p. record p { paused_at = none }) table

unfoldable pub delete_plan : Bool → Option Plan → Result ScheduleError (Option Plan)
delete_plan refused table = if refused then err database else ok none
