-- ===== src/CronStore/Tests.antt =====
-- Two schedules, of which one is paused.
use oddk.Base.{refl, ◌≡◌, false, some, List, [], ◌∷◌, String}
use oddk.CronStore.{
  delete_plan, pause_plan, check_plan_exists, get_plans_for_hour, CronPlan, fresh_plan,
}

abbrev app : String
app = "app"

abbrev plans : List CronPlan
plans =
    record (fresh_plan 5 app 3 7 14) { paused_at = some 9; paused_reason = "restored copy" }
    ∷ fresh_plan 6 "web" 4 7 14
    ∷ []

abbrev web_plan : CronPlan
web_plan = fresh_plan 6 "web" 4 7 14

-- The schedule of `app` goes; a pause of `web` touches one row; `web` runs at 04:00 only.
delete_and_pause :
    (delete_plan false app plans ≡ some (web_plan ∷ []))
    × (pause_plan false 50 "web" "drill" (web_plan ∷ [])
        ≡ some (
          1,
          record web_plan { paused_at = some 50; paused_reason = "drill"; updated_at = 50 } ∷ [],
        ))
    × (check_plan_exists false app (web_plan ∷ []) ≡ some false)
    × (get_plans_for_hour false 4 plans ≡ some (web_plan ∷ []))
unfolding delete_plan pause_plan check_plan_exists get_plans_for_hour
delete_and_pause = (refl, refl, refl, refl)
