-- ===== src/CronReport/Recorded.antt =====
-- The row that a run leaves, against what its reporter knew, and a run that was cut off.
use oddk.Base.{
  ℕ, ◌≡◌, ◌≢◌, refl, sym, ap, ◌∙◌, Bool, true, false, not, ◌||◌, Option, some, List, [], ◌∷◌, ◌++◌,
  String, str_eq, if◌then◌else◌, arith, All, Distinct,
}
use oddk.CronLogs.{CronLog, PhaseLog, interrupt, fresh_log}
use oddk.CronReport.{
  Phase, backup, backup_upload, backup_cleanup, backup_remote_cleanup, failed_phase, recorded_phase,
  cron_log_failed, Reporter, record_phase, is_empty, Outcome, phase, phases,
}

abbrev pub column : Phase → CronLog → PhaseLog
column backup l = l.backup
column backup_upload l = l.backup_upload
column backup_cleanup l = l.backup_cleanup
column backup_remote_cleanup l = l.backup_remote_cleanup

abbrev pub any_failed : CronLog → Bool
any_failed l =
    failed_phase l.backup
    || (failed_phase l.backup_upload
        || (failed_phase l.backup_cleanup || failed_phase l.backup_remote_cleanup))

abbrev any_recorded : CronLog → Bool
any_recorded l =
    recorded_phase l.backup
    || (recorded_phase l.backup_upload
        || (recorded_phase l.backup_cleanup || recorded_phase l.backup_remote_cleanup))

is_empty-append : (fs : List Phase) (p : Phase) → is_empty (fs ++ p ∷ []) ≡ false
is_empty-append [] p = refl
is_empty-append (f ∷ fs) p = refl

abbrev after : Phase → String → ℕ → Option String → CronLog → Reporter → CronLog × Reporter
after name status t cause l r =
    phase (false, (false, false))
      record { name = name; status = status; finished_at = t; cause = cause } (l, r)

-- A phase that the row has not recorded adds its own failure to those of the row, is recorded, and
-- leaves the columns of the other phases.
module _ (status : String) (t : ℕ) (cause : Option String) (l : CronLog) (r : Reporter) where
  phase-any_failed :
      (name : Phase)
      → recorded_phase (column name l) ≡ false
      → any_failed (after name status t cause l r).0 ≡ (any_failed l || str_eq status "fail")
  unfolding phase
  phase-any_failed backup h = ground arith
  phase-any_failed backup_upload h = ground arith
  phase-any_failed backup_cleanup h = ground arith
  phase-any_failed backup_remote_cleanup h = ground arith

  phase-any_recorded : (name : Phase) → any_recorded (after name status t cause l r).0 ≡ true
  unfolding phase
  phase-any_recorded backup = ground arith
  phase-any_recorded backup_upload = ground arith
  phase-any_recorded backup_cleanup = ground arith
  phase-any_recorded backup_remote_cleanup = ground arith

  phase-others :
      (name other : Phase)
      → name ≢ other
      → recorded_phase (column other (after name status t cause l r).0)
        ≡ recorded_phase (column other l)
  unfolding phase
  phase-others backup backup ne = absurd (ne refl)
  phase-others backup backup_upload ne = ground arith
  phase-others backup backup_cleanup ne = ground arith
  phase-others backup backup_remote_cleanup ne = ground arith
  phase-others backup_upload backup ne = ground arith
  phase-others backup_upload backup_upload ne = absurd (ne refl)
  phase-others backup_upload backup_cleanup ne = ground arith
  phase-others backup_upload backup_remote_cleanup ne = ground arith
  phase-others backup_cleanup backup ne = ground arith
  phase-others backup_cleanup backup_upload ne = ground arith
  phase-others backup_cleanup backup_cleanup ne = absurd (ne refl)
  phase-others backup_cleanup backup_remote_cleanup ne = ground arith
  phase-others backup_remote_cleanup backup ne = ground arith
  phase-others backup_remote_cleanup backup_upload ne = ground arith
  phase-others backup_remote_cleanup backup_cleanup ne = ground arith
  phase-others backup_remote_cleanup backup_remote_cleanup ne = absurd (ne refl)

  phase-failures :
      (name : Phase)
      → not (is_empty (after name status t cause l r).1.failures)
        ≡ (not (is_empty r.failures) || str_eq status "fail")
  unfolding phase record_phase
  phase-failures name = ground (arith, is_empty-append r.failures name)

-- The names of the phases that are still to come are new to the row.
abbrev IsNew : CronLog → List Outcome → Type 0
IsNew l os = All (λ (o : Outcome). recorded_phase (column o.name l) ≡ false) os

rest-IsNew :
    (o : Outcome) (l : CronLog) (r : Reporter) (os : List Outcome)
    → All (λ (p : Outcome). o.name ≢ p.name) os
    → IsNew l os
    → IsNew (after o.name o.status o.finished_at o.cause l r).0 os
rest-IsNew o l r [] d h = tt
rest-IsNew o l r (p ∷ os) d h = (
  phase-others o.status o.finished_at o.cause l r o.name p.name d.0 ∙ h.0,
  rest-IsNew o l r os d.1 h.1,
)

phases-any_failed :
    (os : List Outcome) (l : CronLog) (r : Reporter)
    → Distinct (λ (o : Outcome). o.name) os
    → IsNew l os
    → any_failed l ≡ not (is_empty r.failures)
    → any_failed (phases os (l, r)).0 ≡ not (is_empty (phases os (l, r)).1.failures)
unfolding phases
phases-any_failed [] l r d h e = e
phases-any_failed (o ∷ os) l r d h e =
    phases-any_failed os (after o.name o.status o.finished_at o.cause l r).0
      (after o.name o.status o.finished_at o.cause l r).1 d.1 (rest-IsNew o l r os d.0 h.1)
      (phase-any_failed o.status o.finished_at o.cause l r o.name h.0
        ∙ ap (λ b. b || str_eq o.status "fail") e
        ∙ sym (phase-failures o.status o.finished_at o.cause l r o.name))

phases-any_recorded :
    (o : Outcome) (os : List Outcome) (l : CronLog) (r : Reporter)
    → any_recorded (phases (o ∷ os) (l, r)).0 ≡ true
unfolding phases
phases-any_recorded o [] l r = phase-any_recorded o.status o.finished_at o.cause l r o.name
phases-any_recorded o (p ∷ os) l r =
    phases-any_recorded p os (after o.name o.status o.finished_at o.cause l r).0
      (after o.name o.status o.finished_at o.cause l r).1

or_else : (b : Bool) → (if b then true else false) ≡ b
or_else true = refl
or_else false = refl

failed_by_columns : (l : CronLog) → any_recorded l ≡ true → cron_log_failed (some l) ≡ any_failed l
unfolding cron_log_failed
failed_by_columns l h = rw h (or_else (any_failed l))

module _ (now id : ℕ) (name : String) where
  unrecorded_at : (p : Phase) → recorded_phase (column p (fresh_log now id name)) ≡ false
  unrecorded_at backup = refl
  unrecorded_at backup_upload = refl
  unrecorded_at backup_cleanup = refl
  unrecorded_at backup_remote_cleanup = refl

  fresh-IsNew : (os : List Outcome) → IsNew (fresh_log now id name) os
  fresh-IsNew [] = tt
  fresh-IsNew (o ∷ os) = (unrecorded_at o.name, fresh-IsNew os)

-- A run that records at least one phase, each at most once, into a new row: what the next run reads
-- as the outcome of this row is what this run's reporter has, a failure exactly if a phase failed.
pub phases-cron_log_failed :
    (now id : ℕ) (name : String) (r : Reporter) (o : Outcome) (os : List Outcome)
    → r.failures ≡ []
    → Distinct (λ (p : Outcome). p.name) (o ∷ os)
    → let run = phases (o ∷ os) (fresh_log now id name, r) in
      cron_log_failed (some run.0) ≡ not (is_empty run.1.failures)
phases-cron_log_failed now id name r o os clean d =
    failed_by_columns (phases (o ∷ os) (fresh_log now id name, r)).0
      (phases-any_recorded o os (fresh_log now id name) r)
    ∙ phases-any_failed (o ∷ os) (fresh_log now id name) r d (fresh-IsNew now id name (o ∷ os))
        (ap (λ fs. not (is_empty fs)) (sym clean))

-- A run that a stop of the daemon cut off, once startup has closed its row, is read as failed
-- exactly if one of its phases had failed before the stop: the mark itself is not a failure.
pub interrupt-cron_log_failed :
    (now : ℕ) (l : CronLog) → cron_log_failed (some (interrupt now l)) ≡ any_failed l
unfolding interrupt cron_log_failed
interrupt-cron_log_failed now l = ground arith
