-- ===== src/CronSchedule/Idle.antt =====
-- A tick over schedules that are all paused.
use oddk.Base.{
  ◌≡◌, refl, Bool, true, false, Option, none, some, List, [], ◌∷◌, All, All-filter, Bool-cases, inl,
  inr, ◌==◌,
}
use oddk.Snapshots.Plan
use oddk.CronStore as Store
use oddk.CronStore.{CronPlan, get_plans_for_hour}
use oddk.CronSchedule.{
  Host, check_and_run_cron_tasks, check_snapshot_plan, plan_requests, plan_due, plans_of,
  requests_of, hour_of,
}
use oddk.CronSchedule.Snapshot.{check_snapshot_plan-paused}

abbrev pub AllPaused : List CronPlan → Type 0
AllPaused plans = All (λ p. Store.is_paused p ≡ true) plans

-- There is no snapshot plan, or it is paused.
abbrev pub is_idle : Option Plan.Plan → Bool
is_idle none = true
is_idle (some p) = Plan.is_paused p

plan_requests-paused :
    (h : Host) (plans : List CronPlan) → AllPaused plans → plan_requests h plans ≡ []
unfolding plan_requests plan_due
plan_requests-paused h [] all = refl
plan_requests-paused h (p ∷ plans) all = rw all.0 (plan_requests-paused h plans all.1)

check_snapshot_plan-idle :
    (h : Host) (plan : Option Plan.Plan)
    → h.snapshot_plan ≡ some plan
    → is_idle plan ≡ true
    → check_snapshot_plan h ≡ false
unfolding check_snapshot_plan
check_snapshot_plan-idle h none read idle = rw read refl
check_snapshot_plan-idle h (some p) read idle = check_snapshot_plan-paused h p read idle

requests_of-paused :
    (h : Host) (plans : Option (List CronPlan))
    → check_snapshot_plan h ≡ false
    → (elim plans as (λ _. Type 0) [ none ↦ Unit | some ps ↦ AllPaused ps ])
    → requests_of h plans ≡ []
unfolding requests_of
requests_of-paused h none quiet all = refl
requests_of-paused h (some plans) quiet all = rw (quiet, plan_requests-paused h plans all) refl

plans_of-paused :
    (h : Host)
    → AllPaused h.plans
    → (elim (plans_of h) as (λ _. Type 0) [ none ↦ Unit | some ps ↦ AllPaused ps ])
unfolding get_plans_for_hour
plans_of-paused h all = elim (Bool-cases h.force) [
  | inl f ↦ elim (Bool-cases h.plans_refused) [ inl r ↦ rw (f, r) tt | inr r ↦ rw (f, r) all ]
  | inr f ↦ elim (Bool-cases h.plans_refused) [
    | inl r ↦ rw (f, r) tt
    | inr r ↦
        rw (f, r)
          (All-filter (λ p. Store.is_paused p ≡ true) (λ p. p.utc_hour == hour_of h.now) h.plans
            all)
  ]
]

-- A tick over an idle plan and paused schedules asks for nothing.
pub check_and_run_cron_tasks-paused :
    (h : Host) (plan : Option Plan.Plan)
    → h.snapshot_plan ≡ some plan
    → is_idle plan ≡ true
    → AllPaused h.plans
    → check_and_run_cron_tasks h ≡ []
unfolding check_and_run_cron_tasks
check_and_run_cron_tasks-paused h plan read idle all =
    requests_of-paused h (plans_of h) (check_snapshot_plan-idle h plan read idle)
      (plans_of-paused h all)
