-- ===== src/Health/Tests.antt =====
-- A check that finds all well, a crash in the middle of the next one, and the restart after it.
use oddk.Base.{refl, true, false, List, [], ◌∷◌, All}
use oddk.Health.{
  HealthRecord, start_health_check, update_health_check, reset_in_progress_records, fresh_record,
  join,
}
use oddk.Health.Honest.{Report, IsHonest, Reach, Step, Reach-IsHonest}

abbrev green : HealthRecord
green = record (fresh_record 100 1) { in_progress = false; healthy_instances = "app" }

abbrev after_crash : List HealthRecord
after_crash =
    green
    ∷ record (fresh_record 160 2) {
      in_progress = false;
      healthy_all = false;
      fail_details = "interrupted";
    }
    ∷ []

abbrev reports : List Report
reports = record { id = 1; host = true; broken = [] } ∷ []

crash_and_restart : Reach reports after_crash
unfolding start_health_check update_health_check reset_in_progress_records join
crash_and_restart =
    Reach.next {reports = reports} {said = []} {rows = green ∷ fresh_record 160 2 ∷ []}
      (Reach.next {reports = reports} {said = []} {rows = green ∷ []}
        (Reach.next {reports = []} {said = reports} {rows = fresh_record 100 1 ∷ []}
          (Reach.next {reports = []} {said = []} {rows = []} Reach.here
            (Step.started 100 1 {r = fresh_record 100 1} refl))
          (Step.finished 1 true ("app" ∷ []) [] "" refl))
        (Step.started 160 2 {r = fresh_record 160 2} refl))
      (Step.restarted refl)

Reach-IsHonest_example : All (IsHonest reports) after_crash
Reach-IsHonest_example = Reach-IsHonest crash_and_restart
