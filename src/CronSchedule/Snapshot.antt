-- ===== src/CronSchedule/Snapshot.antt =====
-- The decision on the whole deployment's snapshot.
use mathlib.Core.Bool.{true≢false}
use oddk.Base.{
  ℕ, ◌/◌, ◌*◌, ◌%◌, ◌<◌, ◌↔◌, All, ◌≡◌, refl, Bool, true, false, ◌&&◌, Option, none, some, List, [],
  ◌∷◌, String, sym, ap, subst, ◌∙◌, ◌||◌, ◌≤◌, Memᴰ, eq_iff, ◌⊎◌, inl, inr, zero, suc, arith, ltb,
  if◌then◌else◌, any,
}
use oddk.CronLogs.{CronLog, has_run_since, of_instance}
use oddk.Snapshots.Plan
use oddk.Snapshots.Plan.{runs_at_hour}
use oddk.CronSchedule.{
  Host, check_snapshot_plan, snapshot_due, snapshot_cron_instance, snapshot_slot_start,
  snapshot_run_probability, hour_of, minute_of, rolled, not_run,
}

abbrev ran : Host → Option Bool
ran h =
    has_run_since (h.logs_refused snapshot_cron_instance) snapshot_cron_instance
      (snapshot_slot_start h.now) h.logs

-- A paused plan is never asked for, not even under the debug flag.
pub check_snapshot_plan-paused :
    (h : Host) (p : Plan.Plan)
    → h.snapshot_plan ≡ some (some p)
    → Plan.is_paused p ≡ true
    → check_snapshot_plan h ≡ false
unfolding check_snapshot_plan snapshot_due
check_snapshot_plan-paused h p e paused = rw (e, paused) refl

-- The run since the top of the hour that the dedup question looks for.
abbrev NoneSince : ℕ → List CronLog → Type 0
NoneSince cutoff logs =
    All (λ (l : CronLog). l.instance_name ≡ snapshot_cron_instance → l.started_at ≤ cutoff) logs

any-NoneSince :
    (cutoff : ℕ) (logs : List CronLog)
    → (any (λ (m : CronLog). of_instance snapshot_cron_instance m && ltb cutoff m.started_at) logs
        ≡ false)
      ↔ NoneSince cutoff logs
any-NoneSince cutoff [] = (λ e. tt, λ n. refl)
any-NoneSince cutoff (l ∷ logs) =
    let (to, from) = any-NoneSince cutoff logs in
    (
      λ e. (λ n. ground (arith, eq_iff l.instance_name snapshot_cron_instance), to (ground arith)),
      λ n. ground (arith, eq_iff l.instance_name snapshot_cron_instance, n.0, from n.1),
    )

slot_start-top : (now : ℕ) → snapshot_slot_start now ≡ now / 3600 * 3600
unfolding snapshot_slot_start
slot_start-top now = omega arith

late_minute : (now : ℕ) → 1860 ≤ now % 3600 → 30 < minute_of now
late_minute now h = omega arith

late-rolled :
    (h : Host)
    → 30 < minute_of h.now
    → h.roll snapshot_cron_instance < 100
    → rolled h snapshot_cron_instance ≡ true
unfolding snapshot_run_probability
late-rolled h late dice = ground arith

due_iff :
    (h : Host) (p : Plan.Plan) (run : Bool)
    → ran h ≡ some run
    → rolled h snapshot_cron_instance ≡ true
    → (snapshot_due h p ≡ true) ↔ (
        (Plan.is_paused p ≡ false)
        × ((h.force ≡ true) ⊎ (runs_at_hour p (hour_of h.now) ≡ true))
        × (run ≡ false))
unfolding snapshot_due
due_iff h p run r dice = rw (r, dice) (ground arith)

-- From minute 31 of an hour on, with a plan and a log that can be read and dice below 100: the tick
-- asks for the snapshot exactly if the plan is not paused, the hour of the day is one of the plan's
-- or the debug flag is set, and no row of a snapshot run in the log has a start after the top of
-- the hour.
pub check_snapshot_plan-hour :
    (h : Host) (p : Plan.Plan)
    → h.snapshot_plan ≡ some (some p)
    → h.logs_refused snapshot_cron_instance ≡ false
    → 1860 ≤ h.now % 3600
    → h.roll snapshot_cron_instance < 100
    → (check_snapshot_plan h ≡ true) ↔ (
        (Plan.is_paused p ≡ false)
        × ((h.force ≡ true) ⊎ (runs_at_hour p (h.now / 3600 % 24) ≡ true))
        × All
            (λ (l : CronLog).
              l.instance_name ≡ snapshot_cron_instance → l.started_at ≤ h.now / 3600 * 3600)
            h.logs)
unfolding check_snapshot_plan has_run_since
check_snapshot_plan-hour h p e read late dice =
    let run =
      any
        (λ (m : CronLog).
          of_instance snapshot_cron_instance m && ltb (snapshot_slot_start h.now) m.started_at)
        h.logs in
    let (to, from) = due_iff h p run (rw read refl) (late-rolled h (late_minute h.now late) dice) in
    let (none_to, none_from) = any-NoneSince (snapshot_slot_start h.now) h.logs in
    let at_top = λ (c : ℕ). NoneSince c h.logs in
    rw e (
      λ due. let q = to due in (q.0, q.1, subst at_top (slot_start-top h.now) (none_to q.2)),
      λ q. from (q.0, q.1, none_from (subst at_top (sym (slot_start-top h.now)) q.2)),
    )

-- A row of a run since the top of the hour is what the dedup question finds.
any-row :
    (name : String) (cutoff : ℕ) (logs : List CronLog) (l : CronLog)
    → Memᴰ l logs
    → l.instance_name ≡ name
    → cutoff < l.started_at
    → any (λ (m : CronLog). of_instance name m && ltb cutoff m.started_at) logs ≡ true
any-row name cutoff [] l m e c = elim m [ ]
any-row name cutoff (k ∷ logs) l (Memᴰ.head q) e c =
    let row =
      λ (m : CronLog) (n : m.instance_name ≡ name) (d : cutoff < m.started_at). found m n d in
    row k (sym (ap (λ (m : CronLog). m.instance_name) q) ∙ e)
      (subst (λ (m : CronLog). cutoff < m.started_at) q c)
  where
    found :
        (m : CronLog)
        → m.instance_name ≡ name
        → cutoff < m.started_at
        → (of_instance name m && ltb cutoff m.started_at
            || any (λ (n : CronLog). of_instance name n && ltb cutoff n.started_at) logs)
          ≡ true
    found m n d = ground (arith, eq_iff m.instance_name name)
any-row name cutoff (k ∷ logs) l (Memᴰ.tail m) e c =
    ground (arith, any-row name cutoff logs l m e c)

refused_or_run : (b : Bool) → not_run (if b then none else some true) ≡ false
refused_or_run true = refl
refused_or_run false = refl

ran-once :
    (h : Host) (l : CronLog)
    → Memᴰ l h.logs
    → l.instance_name ≡ snapshot_cron_instance
    → snapshot_slot_start h.now < l.started_at
    → not_run (ran h) ≡ false
unfolding has_run_since
ran-once h l m e c =
    rw (any-row snapshot_cron_instance (snapshot_slot_start h.now) h.logs l m e c)
      (refused_or_run (h.logs_refused snapshot_cron_instance))

-- A tick asks for the snapshot only for a plan for which it is due.
module _ (h : Host) where
  never_due :
      ((p : Plan.Plan) → snapshot_due h p ≡ false)
      → (plan : Option (Option Plan.Plan))
      → elim plan [ none ↦ false | some q ↦ elim q [ none ↦ false | some p ↦ snapshot_due h p ] ]
        ≡ false
  never_due d none = refl
  never_due d (some none) = refl
  never_due d (some (some p)) = d p

  check-never : ((p : Plan.Plan) → snapshot_due h p ≡ false) → check_snapshot_plan h ≡ false
  unfolding check_snapshot_plan
  check-never d = never_due d h.snapshot_plan

  due-ran : (p : Plan.Plan) → not_run (ran h) ≡ false → snapshot_due h p ≡ false
  unfolding snapshot_due
  due-ran p r = ground arith

  due-rolled : (p : Plan.Plan) → rolled h snapshot_cron_instance ≡ false → snapshot_due h p ≡ false
  unfolding snapshot_due
  due-rolled p r = ground arith

-- A tick without the debug flag that asks is not in the first minute of its hour.
zero_or_more : (n : ℕ) → (n ≡ 0) ⊎ (0 < n)
zero_or_more zero = inl refl
zero_or_more (suc n) = inr (omega arith)

not_rolled :
    (h : Host) → h.force ≡ false → minute_of h.now ≡ 0 → rolled h snapshot_cron_instance ≡ false
unfolding snapshot_run_probability
not_rolled h f z = rw (f, z) refl

asked-minute : (h : Host) → h.force ≡ false → check_snapshot_plan h ≡ true → 0 < minute_of h.now
asked-minute h f asked = elim (zero_or_more (minute_of h.now)) [
  | inl z ↦
      let unasked = check-never h (λ p. due-rolled h p (not_rolled h f z)) in
      absurd (true≢false (sym asked ∙ unasked))
  | inr m ↦ m
]

slot_passed :
    (a t b : ℕ) → 0 < minute_of a → a / 3600 ≡ b / 3600 → a ≤ t → snapshot_slot_start b < t
unfolding snapshot_slot_start
slot_passed a t b m same after = omega arith

-- At most one run for each slot: when a tick without the debug flag has asked for the snapshot and
-- a row of the run stands in the log with a start that is not before that tick, no tick whose time
-- is in the same hour asks again, not even under the debug flag.
pub check_snapshot_plan-once :
    (h later : Host) (l : CronLog)
    → h.force ≡ false
    → check_snapshot_plan h ≡ true
    → l.instance_name ≡ snapshot_cron_instance
    → h.now ≤ l.started_at
    → Memᴰ l later.logs
    → h.now / 3600 ≡ later.now / 3600
    → check_snapshot_plan later ≡ false
check_snapshot_plan-once h later l f asked e after m same =
    let passed = slot_passed h.now l.started_at later.now (asked-minute h f asked) same after in
    check-never later (λ p. due-ran later p (ran-once later l m e passed))
