-- ===== src/CronStore.antt =====
-- internal/store/cron: the table cron_plans of schedules. A statement that the database refuses is
-- an argument of its operation; `now` is the clock at the call. The reasons of a pause are left out
-- where only a message prints them.
pub mod Plans
mod Tests
use oddk.Base.{
  ℕ, ◌-◌, Bool, true, false, not, ◌&&◌, Option, none, some, List, [], ◌∷◌, ◌++◌, String, str_eq,
  ◌==◌, map, any, filter, take, if◌then◌else◌, ltb, leb, count_of,
}

pub record CronPlan : Type 0 where
  pub instance_name : String
  pub utc_hour : ℕ
  pub cleanup_local_days : ℕ
  pub cleanup_remote_days : ℕ
  pub paused_at : Option ℕ
  pub paused_reason : String
  pub created_at : ℕ
  pub updated_at : ℕ

abbrev pub is_some {ℓ} : {A : Type ℓ} → Option A → Bool
is_some none = false
is_some (some a) = true

unfoldable pub is_paused : CronPlan → Bool
is_paused p = is_some p.paused_at

abbrev pub named : String → CronPlan → Bool
named name p = str_eq p.instance_name name

abbrev pub fresh_plan : ℕ → String → ℕ → ℕ → ℕ → CronPlan
fresh_plan now name hour local remote = record {
  instance_name = name;
  utc_hour = hour;
  cleanup_local_days = local;
  cleanup_remote_days = remote;
  paused_at = none;
  paused_reason = "";
  created_at = now;
  updated_at = now;
}

-- INSERT … ON CONFLICT(instance_name) DO UPDATE: the pause and the creation time are kept.
pub create_plan : Bool → ℕ → String → ℕ → ℕ → ℕ → List CronPlan → Option (List CronPlan)
create_plan refused now name hour local remote rows =
    let change = λ (p : CronPlan). record p {
      utc_hour = hour;
      cleanup_local_days = local;
      cleanup_remote_days = remote;
      updated_at = now;
    } in
    if refused
    then none
    else if any (named name) rows
    then some (map (λ p. if named name p then change p else p) rows)
    else some (rows ++ fresh_plan now name hour local remote ∷ [])

pub delete_plan : Bool → String → List CronPlan → Option (List CronPlan)
delete_plan refused name rows =
    if refused then none else some (filter (λ p. not (named name p)) rows)

abbrev pub paused : ℕ → String → CronPlan → CronPlan
paused now reason p = record p { paused_at = some now; paused_reason = reason; updated_at = now }

abbrev pub resumed : ℕ → CronPlan → CronPlan
resumed now p = record p { paused_at = none; paused_reason = ""; updated_at = now }

-- The rows after the statement and how many it touched.
unfoldable pub pause_all_plans : Bool → ℕ → String → List CronPlan → Option (ℕ × List CronPlan)
pause_all_plans refused now reason rows =
    if refused then none else some (count_of (λ p. true) rows, map (paused now reason) rows)

pub resume_plan : Bool → ℕ → String → List CronPlan → Option (ℕ × List CronPlan)
resume_plan refused now name rows =
    if refused
    then none
    else some
        (count_of (named name) rows, map (λ p. if named name p then resumed now p else p) rows)

pub pause_plan : Bool → ℕ → String → String → List CronPlan → Option (ℕ × List CronPlan)
pause_plan refused now name reason rows =
    if refused
    then none
    else some (
      count_of (named name) rows,
      map (λ p. if named name p then paused now reason p else p) rows,
    )

abbrev pub find : (CronPlan → Bool) → List CronPlan → Option CronPlan
find t [] = none
find t (p ∷ rows) = if t p then some p else find t rows

-- `none` also when there is no row: `db.Get` answers sql.ErrNoRows.
pub get_plan : Bool → String → List CronPlan → Option CronPlan
get_plan refused name rows = if refused then none else find (named name) rows

unfoldable pub get_plans_for_hour : Bool → ℕ → List CronPlan → Option (List CronPlan)
get_plans_for_hour refused hour rows =
    if refused then none else some (filter (λ p. p.utc_hour == hour) rows)

pub check_plan_exists : Bool → String → List CronPlan → Option Bool
check_plan_exists refused name rows =
    if refused then none else some (ltb 0 (count_of (named name) rows))
