-- ===== src/CronStore/Plans.antt =====
-- The schedules: what a write does to what the next read returns.
use mathlib.Core.Option
use oddk.Base.{
  ℕ, ◌≡◌, ◌≢◌, ◌↔◌, refl, true, false, Option, none, some, List, [], ◌∷◌, ◌++◌, String, str_eq, map,
  any, if◌then◌else◌, arith, eq_iff, eq_refl, Bool-cases, inl, inr, All,
}
use oddk.CronStore.{
  CronPlan, create_plan, fresh_plan, get_plan, named, find, paused, pause_all_plans, resume_plan,
  is_paused, resumed,
}

-- The read after a write.
abbrev pub then_get : Option (List CronPlan) → String → Option CronPlan
then_get none name = none
then_get (some rows) name = get_plan false name rows

find-map :
    (name j : String) (f : CronPlan → CronPlan)
    → ((p : CronPlan) → (f p).instance_name ≡ p.instance_name)
    → (rows : List CronPlan)
    → find (named j) (map (λ p. if named name p then f p else p) rows)
      ≡ (if str_eq name j then Option.map f (find (named j) rows) else find (named j) rows)
find-map name j f keeps [] = ground arith
find-map name j f keeps (r ∷ rows) = ground (
  arith,
  find-map name j f keeps rows,
  keeps r,
  eq_iff r.instance_name name,
  eq_iff r.instance_name j,
  eq_iff name j,
)

find-append :
    (j : String) (x : CronPlan) (rows : List CronPlan)
    → any (named j) rows ≡ false
    → find (named j) (rows ++ x ∷ []) ≡ (if named j x then some x else none)
find-append j x [] h = ground arith
find-append j x (r ∷ rows) h = ground (arith, find-append j x rows)

find-none :
    (j : String) (rows : List CronPlan) → any (named j) rows ≡ false → find (named j) rows ≡ none
find-none j [] h = refl
find-none j (r ∷ rows) h = ground (arith, find-none j rows)

abbrev set_up : ℕ → ℕ → ℕ → ℕ → CronPlan → CronPlan
set_up now hour local remote p = record p {
  utc_hour = hour;
  cleanup_local_days = local;
  cleanup_remote_days = remote;
  updated_at = now;
}

find-any :
    (j : String) (rows : List CronPlan)
    → any (named j) rows ≡ true
    → (p : CronPlan) × (find (named j) rows ≡ some p)
find-any j [] h = ground arith
find-any j (r ∷ rows) h = elim (Bool-cases (named j r)) [
  | inl e ↦ (r, rw e refl)
  | inr e ↦ let (p, f) = find-any j rows (ground arith) in (p, rw e f)
]

-- Setting up the schedule of an instance is what the next read returns. A schedule that is there
-- already gets the new hour and retention and keeps its pause and its creation time: a second setup
-- does not resume it. A new one is not paused.
pub create_plan-get :
    (now : ℕ) (name : String) (hour local remote : ℕ) (rows : List CronPlan)
    → then_get (create_plan false now name hour local remote rows) name
      ≡ some (elim (get_plan false name rows) [
        | none ↦ fresh_plan now name hour local remote
        | some p ↦ set_up now hour local remote p
      ])
unfolding create_plan get_plan
create_plan-get now name hour local remote rows = elim (Bool-cases (any (named name) rows)) [
  | inl e ↦
      let (p, f) = find-any name rows e in
      rw (e, find-map name name (set_up now hour local remote) (λ q. refl) rows, eq_refl name, f)
        refl
  | inr e ↦
      rw
        (
          e,
          find-append name (fresh_plan now name hour local remote) rows e,
          eq_refl name,
          find-none name rows e,
        )
        refl
]

abbrev pub and_then :
    Option (ℕ × List CronPlan)
    → (List CronPlan → Option (ℕ × List CronPlan))
    → Option (ℕ × List CronPlan)
and_then none f = none
and_then (some r) f = f r.1

All-resumed :
    (now later : ℕ) (reason name : String) (rows : List CronPlan)
    → All
        (λ p. (is_paused p ≡ true) ↔ (p.instance_name ≢ name))
        (map (λ p. if named name p then resumed later p else p) (map (paused now reason) rows))
unfolding is_paused
All-resumed now later reason name [] = tt
All-resumed now later reason name (p ∷ rows) =
    (ground (arith, eq_iff p.instance_name name), All-resumed now later reason name rows)

-- After all schedules are paused and the one of `name` is resumed, a schedule is paused exactly if it
-- is of another instance. The statements touch every row and the rows of `name`.
pub pause_all-resume :
    (now later : ℕ) (reason name : String) (rows : List CronPlan)
    → (after : ℕ × List CronPlan) × (and_then
          (pause_all_plans false now reason rows)
          (resume_plan false later name)
        ≡ some after)
      × All (λ p. (is_paused p ≡ true) ↔ (p.instance_name ≢ name)) after.1
unfolding pause_all_plans resume_plan
pause_all-resume now later reason name rows = (_, refl, All-resumed now later reason name rows)
