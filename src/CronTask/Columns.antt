-- ===== src/CronTask/Columns.antt =====
-- What the updates of a phase leave in the columns of the row.
use oddk.Base.{
  ap, List, [], ◌∷◌, ◌≡◌, refl, ◌∙◌, Bool, true, false, not, ◌&&◌, Option, none, some, String,
  if◌then◌else◌, arith,
}
use oddk.CronLogs.{CronLog, PhaseLog}
use oddk.CronReport.{
  Phase, backup, backup_upload, backup_cleanup, backup_remote_cleanup, Outcome, Reporter, phase,
  set_phase, set_cause, updated,
}
use oddk.CronTask.{run_phases}
use oddk.CronReport.Recorded.{column}

abbrev pub same_phase : Phase → Phase → Bool
same_phase backup backup = true
same_phase backup_upload backup_upload = true
same_phase backup_cleanup backup_cleanup = true
same_phase backup_remote_cleanup backup_remote_cleanup = true
same_phase _ _ = false

abbrev pub status_in : Phase → CronLog → Option String
status_in p l = (column p l).status

set_phase-status :
    (name p : Phase) (f : PhaseLog → PhaseLog) (l : CronLog)
    → status_in p (set_phase name f l)
      ≡ (if same_phase name p then (f (column p l)).status else status_in p l)
set_phase-status backup backup f l = refl
set_phase-status backup backup_upload f l = refl
set_phase-status backup backup_cleanup f l = refl
set_phase-status backup backup_remote_cleanup f l = refl
set_phase-status backup_upload backup f l = refl
set_phase-status backup_upload backup_upload f l = refl
set_phase-status backup_upload backup_cleanup f l = refl
set_phase-status backup_upload backup_remote_cleanup f l = refl
set_phase-status backup_cleanup backup f l = refl
set_phase-status backup_cleanup backup_upload f l = refl
set_phase-status backup_cleanup backup_cleanup f l = refl
set_phase-status backup_cleanup backup_remote_cleanup f l = refl
set_phase-status backup_remote_cleanup backup f l = refl
set_phase-status backup_remote_cleanup backup_upload f l = refl
set_phase-status backup_remote_cleanup backup_cleanup f l = refl
set_phase-status backup_remote_cleanup backup_remote_cleanup f l = refl

updated-status :
    (refused : Bool) (name p : Phase) (f : PhaseLog → PhaseLog) (l : CronLog)
    → status_in p (updated refused l (set_phase name f))
      ≡ (if same_phase name p && not refused then (f (column p l)).status else status_in p l)
updated-status true name p f l = ground arith
updated-status false name p f l = set_phase-status name p f l ∙ ground arith

-- An update that keeps the status of a phase keeps that of every phase.
updated-keeps :
    (refused : Bool) (name p : Phase) (f : PhaseLog → PhaseLog) (l : CronLog)
    → ((c : PhaseLog) → (f c).status ≡ c.status)
    → status_in p (updated refused l (set_phase name f)) ≡ status_in p l
updated-keeps refused name p f l keeps =
    updated-status refused name p f l ∙ ground (arith, keeps (column p l))

set_cause-status :
    (refused : Bool) (name p : Phase) (cause : Option String) (l : CronLog)
    → status_in p (set_cause refused name cause l) ≡ status_in p l
set_cause-status refused name p none l = refl
set_cause-status refused name p (some e) l = updated-keeps refused name p _ l (λ c. refl)

-- A phase writes its status into its own column, unless that update is refused.
pub phase-status :
    (refused : Bool × (Bool × Bool)) (o : Outcome) (p : Phase) (l : CronLog) (r : Reporter)
    → status_in p (phase refused o (l, r)).0
      ≡ (if same_phase o.name p && not refused.0 then some o.status else status_in p l)
unfolding phase
phase-status (a, (b, c)) o p l r =
    set_cause-status c o.name p o.cause _
    ∙ updated-keeps b o.name p _ _ (λ q. refl)
    ∙ updated-status a o.name p _ l

-- The status of a column after the outcomes, from the one before.
abbrev pub written :
    (Phase → Bool × (Bool × Bool)) → List Outcome → Phase → Option String → Option String
written refused [] p s = s
written refused (o ∷ os) p s =
    written refused os p
      (if same_phase o.name p && not (refused o.name).0 then some o.status else s)

pub run_phases-status :
    (refused : Phase → Bool × (Bool × Bool)) (os : List Outcome) (p : Phase) (l : CronLog)
    (r : Reporter)
    → status_in p (run_phases refused os (l, r)).0 ≡ written refused os p (status_in p l)
unfolding run_phases
run_phases-status refused [] p l r = refl
run_phases-status refused (o ∷ os) p l r =
    let next = phase (refused o.name) o (l, r) in
    run_phases-status refused os p next.0 next.1
    ∙ ap (written refused os p) (phase-status (refused o.name) o p l r)

-- No phase completes the row.
updated-completed_at :
    (refused : Bool) (name : Phase) (f : PhaseLog → PhaseLog) (l : CronLog)
    → (updated refused l (set_phase name f)).completed_at ≡ l.completed_at
updated-completed_at true name f l = refl
updated-completed_at false backup f l = refl
updated-completed_at false backup_upload f l = refl
updated-completed_at false backup_cleanup f l = refl
updated-completed_at false backup_remote_cleanup f l = refl

set_cause-completed_at :
    (refused : Bool) (name : Phase) (cause : Option String) (l : CronLog)
    → (set_cause refused name cause l).completed_at ≡ l.completed_at
set_cause-completed_at refused name none l = refl
set_cause-completed_at refused name (some e) l = updated-completed_at refused name _ l

pub run_phases-completed_at :
    (refused : Phase → Bool × (Bool × Bool)) (os : List Outcome) (l : CronLog) (r : Reporter)
    → (run_phases refused os (l, r)).0.completed_at ≡ l.completed_at
unfolding run_phases phase
run_phases-completed_at refused [] l r = refl
run_phases-completed_at refused (o ∷ os) l r =
    let next = phase (refused o.name) o (l, r) in
    run_phases-completed_at refused os next.0 next.1
    ∙ set_cause-completed_at (refused o.name).1.1 o.name o.cause _
    ∙ updated-completed_at (refused o.name).1.0 o.name _ _
    ∙ updated-completed_at (refused o.name).0 o.name _ l
