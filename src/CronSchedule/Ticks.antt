-- ===== src/CronSchedule/Ticks.antt =====
-- A tick and the queue: who is asked for, and that whoever is asked for is served.
use mathlib.Core.Bool.{true≢false}
use oddk.Base.{
  eq→str_eq, ◌≡◌, ◌≢◌, refl, sym, ap, ◌∙◌, ◌⊎◌, inl, inr, true, some, List, [], ◌∷◌, ◌++◌, String,
  Memᴰ, str_eq, str_eq→eq, Bool-cases, if◌then◌else◌, arith, subst,
}
use oddk.CronStore.{CronPlan}
use oddk.CronTracker.{Tracker, run_task, contains}
use oddk.CronSchedule.{
  Host, plan_due, plan_requests, plans_of, check_snapshot_plan, snapshot_cron_instance,
  check_and_run_cron_tasks, requests_of, request_all,
}

-- A task that runs or waits.
abbrev pub Waits : Tracker → String → Type 0
Waits t name = (t.current_task ≡ name) ⊎ Memᴰ name t.pending_tasks

mem-contains : (names : List String) (name : String) → contains names name ≡ true → Memᴰ name names
mem-contains [] name h = ground arith
mem-contains (n ∷ names) name h = elim (Bool-cases (str_eq n name)) [
  | inl e ↦ Memᴰ.head (sym (str_eq→eq n name e))
  | inr e ↦ Memᴰ.tail (mem-contains names name (ground arith))
]

mem-before :
    (names : List String) {x : String} (y : String) → Memᴰ x names → Memᴰ x (names ++ y ∷ [])
mem-before [] y m = elim m [ ]
mem-before (n ∷ names) y (Memᴰ.head e) = Memᴰ.head e
mem-before (n ∷ names) y (Memᴰ.tail m) = Memᴰ.tail (mem-before names y m)

mem-last : (names : List String) (y : String) → Memᴰ y (names ++ y ∷ [])
mem-last [] y = Memᴰ.head refl
mem-last (n ∷ names) y = Memᴰ.tail (mem-last names y)

-- A request puts its task into the queue, if it is not there, and drops no other.
run_task-Waits : (t : Tracker) (name : String) → Waits (run_task t name).after name
unfolding run_task
run_task-Waits t name = elim (Bool-cases (str_eq t.current_task name)) [
  | inl e ↦ rw e (inl (str_eq→eq t.current_task name e))
  | inr e ↦ elim (Bool-cases (contains t.pending_tasks name)) [
    | inl w ↦ rw (e, w) (inr (mem-contains t.pending_tasks name w))
    | inr w ↦ elim (Bool-cases (str_eq t.current_task "")) [
      | inl i ↦ rw (e, w, i) (inl refl)
      | inr i ↦ rw (e, w, i) (inr (mem-last t.pending_tasks name))
    ]
  ]
]

run_task-keeps :
    (t : Tracker) (name other : String)
    → other ≢ ""
    → Waits t other
    → Waits (run_task t name).after other
unfolding run_task
run_task-keeps t name other ne waits = elim (Bool-cases (str_eq t.current_task name)) [
  | inl e ↦ rw e waits
  | inr e ↦ elim (Bool-cases (contains t.pending_tasks name)) [
    | inl w ↦ rw (e, w) waits
    | inr w ↦ elim (Bool-cases (str_eq t.current_task "")) [
      | inl i ↦
          rw (e, w, i)
            (elim waits [
              | inl c ↦ absurd (ne (sym c ∙ str_eq→eq t.current_task "" i))
              | inr m ↦ inr m
            ])
      | inr i ↦
          rw (e, w, i)
            (elim waits [ inl c ↦ inl c | inr m ↦ inr (mem-before t.pending_tasks name m) ])
    ]
  ]
]

request_all-keeps :
    (names : List String) (t : Tracker) (name : String)
    → name ≢ ""
    → Waits t name
    → Waits (request_all t names) name
unfolding request_all
request_all-keeps [] t name ne w = w
request_all-keeps (n ∷ names) t name ne w =
    request_all-keeps names (run_task t n).after name ne (run_task-keeps t n name ne w)

request_all-Waits :
    (names : List String) (t : Tracker) (name : String)
    → name ≢ ""
    → Memᴰ name names
    → Waits (request_all t names) name
unfolding request_all
request_all-Waits [] t name ne m = elim m [ ]
request_all-Waits (n ∷ names) t name ne (Memᴰ.head e) =
    request_all-keeps names (run_task t n).after name ne
      (subst (λ x. Waits (run_task t n).after x) (sym e) (run_task-Waits t n))
request_all-Waits (n ∷ names) t name ne (Memᴰ.tail m) =
    request_all-Waits names (run_task t n).after name ne m

mem-after : (xs : List String) {ys : List String} {x : String} → Memᴰ x ys → Memᴰ x (xs ++ ys)
mem-after [] m = m
mem-after (y ∷ xs) m = Memᴰ.tail (mem-after xs m)

named_snapshot : snapshot_cron_instance ≢ ""
named_snapshot q = true≢false (sym (eq→str_eq snapshot_cron_instance "" q))

-- The requests of a tick whose reads succeed.
abbrev requests : Host → List CronPlan → List String
requests h plans =
    (if check_snapshot_plan h then snapshot_cron_instance ∷ [] else []) ++ plan_requests h plans

of_tick :
    (h : Host) (plans : List CronPlan)
    → plans_of h ≡ some plans
    → check_and_run_cron_tasks h ≡ requests h plans
unfolding check_and_run_cron_tasks requests_of
of_tick h plans e = ap (requests_of h) e

first-mem :
    (h : Host) (plans : List CronPlan)
    → check_snapshot_plan h ≡ true
    → Memᴰ snapshot_cron_instance (requests h plans)
first-mem h plans c = rw c (Memᴰ.head refl)

plan_requests-mem :
    (h : Host) (plans : List CronPlan) (p : CronPlan)
    → Memᴰ p plans
    → plan_due h p ≡ true
    → Memᴰ p.instance_name (plan_requests h plans)
unfolding plan_requests
plan_requests-mem h [] p m due = elim m [ ]
plan_requests-mem h (q ∷ plans) p (Memᴰ.head e) due =
    rw (sym (ap (plan_due h) e) ∙ due) (Memᴰ.head (ap (λ (x : CronPlan). x.instance_name) e))
plan_requests-mem h (q ∷ plans) p (Memᴰ.tail m) due =
    let rest = plan_requests-mem h plans p m due in
    elim (Bool-cases (plan_due h q)) [ inl d ↦ rw d (Memᴰ.tail rest) | inr d ↦ rw d rest ]

-- After a tick whose read of the plans succeeds, the snapshot, if it is asked for, and every named
-- instance whose plan is due runs or waits in the queue, and so does every named task that ran or
-- waited before.
pub check_and_run_cron_tasks-Waits :
    (h : Host) (t : Tracker) (plans : List CronPlan)
    → plans_of h ≡ some plans
    → let after = request_all t (check_and_run_cron_tasks h) in
      (check_snapshot_plan h ≡ true → Waits after snapshot_cron_instance)
      × ((p : CronPlan)
          → p.instance_name ≢ ""
          → Memᴰ p plans
          → plan_due h p ≡ true
          → Waits after p.instance_name)
      × ((name : String) → name ≢ "" → Waits t name → Waits after name)
check_and_run_cron_tasks-Waits h t plans e = rw (of_tick h plans e) (
  λ c.
      request_all-Waits (requests h plans) t snapshot_cron_instance named_snapshot
        (first-mem h plans c),
  λ p ne m due. request_all-Waits (requests h plans) t p.instance_name ne (
      mem-after (if check_snapshot_plan h then snapshot_cron_instance ∷ [] else [])
        (plan_requests-mem h plans p m due)),
  λ name ne w. request_all-keeps (requests h plans) t name ne w,
)
