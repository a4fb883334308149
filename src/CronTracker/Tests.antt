-- ===== src/CronTracker/Tests.antt =====
-- Two instances and the snapshot; the second request of the snapshot is a duplicate.
use oddk.Base.{◌≡◌, refl, ◌≢◌, [], ◌∷◌, String, arith, eq_iff}
use oddk.CronTracker.{get_status, Tracker, run_task, finish_task, new_cron_task_tracker}
use oddk.CronTracker.Queue.{Log, Reach, Step, IsServing, Reach-IsServing}

abbrev shop : String
shop = "shop"

abbrev reports : String
reports = "reports"

abbrev snapshot : String
snapshot = "*snapshot*"

abbrev queue : Tracker
queue = record { current_task = snapshot; pending_tasks = reports ∷ [] }

abbrev history : Log
history = record { accepted = shop ∷ snapshot ∷ reports ∷ []; started = shop ∷ snapshot ∷ [] }

shop_named : shop ≢ ""
shop_named = ground (arith, eq_iff shop "")

snapshot_named : snapshot ≢ ""
snapshot_named = ground (arith, eq_iff snapshot "")

reports_named : reports ≢ ""
reports_named = ground (arith, eq_iff reports "")

queue-Reach : Reach queue history
unfolding run_task finish_task new_cron_task_tracker
queue-Reach =
    let r1 = Reach.next Reach.here (Step.requested shop shop_named) in
    let r2 = Reach.next r1 (Step.requested snapshot snapshot_named) in
    let r3 = Reach.next r2 (Step.requested reports reports_named) in
    let r4 = Reach.next r3 (Step.requested snapshot snapshot_named) in
    Reach.next r4 (Step.ended shop_named)

Reach-IsServing_example : IsServing queue history
Reach-IsServing_example = Reach-IsServing queue-Reach

status_shown : get_status queue ≡ (snapshot, (1, reports ∷ []))
unfolding get_status
status_shown = refl
