-- ===== src/Notify/Thresholds.antt =====
-- What the thresholds ask of the newest completed records.
use oddk.Base.{
  sym, ℕ, zero, suc, max, ◌≤◌, ◌≡◌, ◌↔◌, refl, ◌∙◌, Bool, true, false, not, ◌&&◌, List, [], ◌∷◌,
  arith, take, if◌then◌else◌, filter,
}
use oddk.Health.{HealthRecord, get_recent_health_records, latest_first}
use oddk.Notify.{unknown, healthy, degraded, run_of, evaluate_health_state}

-- The newest `n` records exist, and each says `b`.
abbrev pub NewestAll : Bool → ℕ → List HealthRecord → Type 0
NewestAll b zero records = Unit
NewestAll b (suc n) [] = ⊥
NewestAll b (suc n) (r ∷ records) = (r.healthy_all ≡ b) × NewestAll b n records

run_of-suc :
    (p : HealthRecord → Bool) (n : ℕ) (r : HealthRecord) (records : List HealthRecord)
    → run_of p (suc n) (r ∷ records) ≡ (p r && run_of p n records)
run_of-suc p n r records = ground arith

run_of-failed :
    (n : ℕ) (records : List HealthRecord)
    → (run_of (λ r. not r.healthy_all) n records ≡ true) ↔ NewestAll false n records
run_of-failed zero records = (λ h. tt, λ h. ground arith)
run_of-failed (suc n) [] = (λ h. ground arith, λ h. absurd h)
run_of-failed (suc n) (r ∷ records) =
    let (to, from) = run_of-failed n records in
    let step = run_of-suc (λ r. not r.healthy_all) n r records in
    (
      λ h.
          let both : (not r.healthy_all && run_of (λ s. not s.healthy_all) n records) ≡ true =
            sym step ∙ h in
          (ground arith, to (ground arith)),
      λ h. step ∙ ground (arith, from h.1),
    )

run_of-healthy :
    (n : ℕ) (records : List HealthRecord)
    → (run_of (λ r. r.healthy_all) n records ≡ true) ↔ NewestAll true n records
run_of-healthy zero records = (λ h. tt, λ h. ground arith)
run_of-healthy (suc n) [] = (λ h. ground arith, λ h. absurd h)
run_of-healthy (suc n) (r ∷ records) =
    let (to, from) = run_of-healthy n records in
    let step = run_of-suc (λ r. r.healthy_all) n r records in
    (
      λ h.
          let both : (r.healthy_all && run_of (λ s. s.healthy_all) n records) ≡ true =
            sym step ∙ h in
          (ground arith, to (ground arith)),
      λ h. step ∙ ground (arith, from h.1),
    )

NewestAll-take :
    (b : Bool) (n m : ℕ) (records : List HealthRecord)
    → n ≤ m
    → NewestAll b n (take m records) ↔ NewestAll b n records
NewestAll-take b zero m records h = (λ x. x, λ x. x)
NewestAll-take b (suc n) zero records h = absurd (omega arith)
NewestAll-take b (suc n) (suc m) [] h = (λ x. x, λ x. x)
NewestAll-take b (suc n) (suc m) (r ∷ records) h =
    let (to, from) = NewestAll-take b n m records (omega arith) in
    (λ x. (x.0, to x.1), λ x. (x.0, from x.1))

ladder-degraded :
    (f g : Bool)
    → ((if f then degraded else if g then healthy else unknown) ≡ degraded) ↔ (f ≡ true)
ladder-degraded true g = (λ e. refl, λ e. refl)
ladder-degraded false g = (λ e. ground arith, λ e. cc)

ladder-healthy :
    (f g : Bool)
    → ((if f then degraded else if g then healthy else unknown) ≡ healthy)
      ↔ ((f ≡ false) × (g ≡ true))
ladder-healthy true g = (λ e. cc, λ e. cc e.0)
ladder-healthy false true = (λ e. (refl, refl), λ e. refl)
ladder-healthy false false = (λ e. cc, λ e. cc e.1)

state-degraded :
    (d r : ℕ) (records : List HealthRecord)
    → 1 ≤ d
    → (evaluate_health_state records d r ≡ degraded) ↔ NewestAll false d records
unfolding evaluate_health_state
state-degraded zero r records h = absurd (omega arith)
state-degraded (suc d) r [] h = (λ e. cc, λ e. absurd e)
state-degraded (suc d) r (x ∷ records) h =
    let ladder =
      ladder-degraded (run_of (λ s. not s.healthy_all) (suc d) (x ∷ records))
        (run_of (λ s. s.healthy_all) r (x ∷ records)) in
    let runs = run_of-failed (suc d) (x ∷ records) in
    (λ e. runs.0 (ladder.0 e), λ n. ladder.1 (runs.1 n))

-- The newest record cannot be both.
not_failed :
    (d : ℕ) (x : HealthRecord) (records : List HealthRecord)
    → x.healthy_all ≡ true
    → run_of (λ s. not s.healthy_all) (suc d) (x ∷ records) ≡ false
not_failed d x records h = rw (run_of-suc (λ s. not s.healthy_all) d x records, h) refl

state-healthy :
    (d r : ℕ) (records : List HealthRecord)
    → 1 ≤ d
    → 1 ≤ r
    → (evaluate_health_state records d r ≡ healthy) ↔ NewestAll true r records
unfolding evaluate_health_state
state-healthy zero r records h k = absurd (omega arith)
state-healthy (suc d) zero records h k = absurd (omega arith)
state-healthy (suc d) (suc r) [] h k = (λ e. cc, λ e. absurd e)
state-healthy (suc d) (suc r) (x ∷ records) h k =
    let ladder =
      ladder-healthy (run_of (λ s. not s.healthy_all) (suc d) (x ∷ records))
        (run_of (λ s. s.healthy_all) (suc r) (x ∷ records)) in
    let runs = run_of-healthy (suc r) (x ∷ records) in
    (λ e. runs.0 (ladder.0 e).1, λ n. ladder.1 (not_failed d x records n.0, runs.1 n))

abbrev pub completed : List HealthRecord → List HealthRecord
completed rows = latest_first (filter (λ r. not r.in_progress) rows)

-- With thresholds of at least 1, the state that the records of the table give is degraded exactly
-- when the newest `d` completed checks all failed, and healthy exactly when the newest `r`
-- completed checks all passed; the query's limit cuts off nothing that matters.
pub evaluate_health_state-NewestAll :
    (d r : ℕ) (rows : List HealthRecord)
    → 1 ≤ d
    → 1 ≤ r
    → let state = evaluate_health_state (get_recent_health_records (max d r) rows) d r in
      ((state ≡ degraded) ↔ NewestAll false d (completed rows))
      × ((state ≡ healthy) ↔ NewestAll true r (completed rows))
unfolding get_recent_health_records
evaluate_health_state-NewestAll d r rows h k =
    let recent = take (max d r) (completed rows) in
    let worse = state-degraded d r recent h in
    let better = state-healthy d r recent h k in
    let failed = NewestAll-take false d (max d r) (completed rows) (omega arith) in
    let passed = NewestAll-take true r (max d r) (completed rows) (omega arith) in
    (
      (λ e. failed.0 (worse.0 e), λ n. worse.1 (failed.1 n)),
      (λ e. passed.0 (better.0 e), λ n. better.1 (passed.1 n)),
    )
