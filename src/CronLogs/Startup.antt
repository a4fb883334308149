-- ===== src/CronLogs/Startup.antt =====
-- The run log: what the startup pass leaves of runs that a dead process started.
use oddk.Base.{
  ℕ, ap₂, ◌≡◌, refl, Bool, false, not, ◌&&◌, some, List, [], ◌∷◌, String, map, any, if◌then◌else◌,
  arith, count_of, ltb,
}
use oddk.CronStore.{is_some}
use oddk.CronLogs.{CronLog, of_instance, interrupt, mark_interrupted_runs, has_run_since}

-- Open runs of an instance.
abbrev pub is_open : String → CronLog → Bool
is_open name l = of_instance name l && not (is_some l.completed_at)

abbrev pub closed : ℕ → String → CronLog → CronLog
closed now name l = if is_open name l then interrupt now l else l

count-closed :
    (now : ℕ) (name : String) (rows : List CronLog)
    → count_of (is_open name) (map (closed now name) rows) ≡ 0
unfolding interrupt
count-closed now name [] = refl
count-closed now name (l ∷ rows) = ground (arith, count-closed now name rows)

closed-closed :
    (now later : ℕ) (name : String) (l : CronLog)
    → closed later name (closed now name l) ≡ closed now name l
unfolding interrupt
closed-closed now later name l = ground arith

map-closed :
    (now later : ℕ) (name : String) (rows : List CronLog)
    → map (closed later name) (map (closed now name) rows) ≡ map (closed now name) rows
unfolding interrupt
map-closed now later name [] = refl
map-closed now later name (l ∷ rows) =
    ap₂ (λ x xs. x ∷ xs) (closed-closed now later name l) (map-closed now later name rows)

any-closed :
    (now : ℕ) (name other : String) (cutoff : ℕ) (rows : List CronLog)
    → any
        (λ (l : CronLog). of_instance other l && ltb cutoff l.started_at)
        (map (closed now name) rows)
      ≡ any (λ (l : CronLog). of_instance other l && ltb cutoff l.started_at) rows
unfolding interrupt
any-closed now name other cutoff [] = refl
any-closed now name other cutoff (l ∷ rows) = ground (arith, any-closed now name other cutoff rows)

-- After the startup pass no run of the instance is open, its count is that of the runs that were,
-- a second pass changes nothing, and the dedup question of any instance has the answer it had:
-- closing an interrupted run does not let the scheduler start it again in the same slot.
pub mark_interrupted_runs-closed :
    (now later : ℕ) (name : String) (rows : List CronLog)
    → (after : List CronLog) × (mark_interrupted_runs false now name rows
        ≡ some (count_of (is_open name) rows, after))
      × (mark_interrupted_runs false later name after ≡ some (0, after))
      × ((other : String) (cutoff : ℕ)
          → has_run_since false other cutoff after ≡ has_run_since false other cutoff rows)
unfolding mark_interrupted_runs has_run_since
mark_interrupted_runs-closed now later name rows = (
  map (closed now name) rows,
  refl,
  rw (count-closed now name rows, map-closed now later name rows) refl,
  λ other cutoff. rw (any-closed now name other cutoff rows) refl,
)
