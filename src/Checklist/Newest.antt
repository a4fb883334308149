-- ===== src/Checklist/Newest.antt =====
-- The newest record that can be restored, and what the audit says by it.
use oddk.Base.{
  ℕ, ◌+◌, ◌*◌, ◌≤◌, ◌≡◌, ◌↔◌, refl, ◌⊎◌, Bool, true, false, Option, none, some, List, [], ◌∷◌,
  arith, Bool-cases, inl, inr, Memᴰ, All, All-at, length,
}
use oddk.Newest.Order.{NewestFirst, newest_by-NewestFirst, mem-newest_by, newest_by-mem}
use oddk.Disk.{Disk}
use oddk.CronStore.{CronPlan}
use oddk.Snapshots.{Record, newest_first, list}
use oddk.Snapshots.Plan
use oddk.Checklist.{
  is_restorable, newest_restorable, is_stale, interval_seconds, collect_snapshots, Summary,
  summary_of, count_copies, Copies, location_label, counted, has_local_file, has_remote, no_copies,
}

weaken :
    (disk : Disk) (r : Record) (rows : List Record)
    → All (λ s. s.created_at ≤ r.created_at) rows
    → All (λ s. is_restorable disk s ≡ true → s.created_at ≤ r.created_at) rows
weaken disk r [] h = tt
weaken disk r (s ∷ rows) h = ((λ _. h.0), weaken disk r rows h.1)

abbrev pub all_copies : Copies → ℕ
all_copies c = c.local_and_remote + c.remote_only + c.local_only + c.without

module _ (disk : Disk) where
  -- Nothing can be restored, or the first that can is the newest that can.
  pub newest_restorable-cases :
      (rows : List Record)
      → NewestFirst (λ (r : Record). r.created_at) rows
      → ((newest_restorable disk rows ≡ none) × All (λ r. is_restorable disk r ≡ false) rows)
        ⊎ ((r : Record) × (newest_restorable disk rows ≡ some r)
            × Memᴰ r rows
            × (is_restorable disk r ≡ true)
            × All (λ s. is_restorable disk s ≡ true → s.created_at ≤ r.created_at) rows)
  unfolding newest_restorable
  newest_restorable-cases [] h = inl (refl, tt)
  newest_restorable-cases (r ∷ rows) h = elim (Bool-cases (is_restorable disk r)) [
    | inl e ↦ inr (r, rw e refl, Memᴰ.head refl, e, (λ _. omega arith, weaken disk r rows h.0))
    | inr e ↦ elim (newest_restorable-cases rows h.1) [
      | inl (n, a) ↦ inl (rw e n, (e, a))
      | inr (s, q, m, c, a) ↦ inr (s, rw e q, Memᴰ.tail m, c, ((λ t. absurd (ground arith)), a))
    ]
  ]

  counted-all :
      (local remote : Bool) (c : Copies)
      → all_copies (counted (location_label local remote) c) ≡ all_copies c + 1
  unfolding location_label
  counted-all true true c = omega arith
  counted-all true false c = omega arith
  counted-all false true c = omega arith
  counted-all false false c = omega arith

  count_copies-all :
      (rows : List Record) (c : Copies)
      → all_copies (count_copies disk rows c) ≡ all_copies c + length rows
  unfolding count_copies
  count_copies-all [] c = omega arith
  count_copies-all (r ∷ rows) c = omega (
    arith,
    count_copies-all rows (counted (location_label (has_local_file disk r) (has_remote r)) c),
    counted-all (has_local_file disk r) (has_remote r) c,
  )

  -- A completed record of the catalogue with a copy that is left, not older than two intervals.
  abbrev pub IsFresh : ℕ → Plan.Plan → List Record → Type 0
  IsFresh now p rows =
      (r : Record) × Memᴰ r rows
      × (is_restorable disk r ≡ true)
      × (now ≤ r.created_at + 2 * interval_seconds p.interval_hours)

  stale-newest :
      (now : ℕ) (p : Plan.Plan) (rows : List Record)
      → NewestFirst (λ (r : Record). r.created_at) rows
      → (is_stale now (some p) (newest_restorable disk rows) ≡ false) ↔ IsFresh now p rows
  stale-newest now p rows h = elim (newest_restorable-cases rows h) [
    | inl (n, a) ↦ rw n (
      λ e. absurd (ground arith),
      λ (r, m, c, _). absurd (ground (arith, All-at (λ s. is_restorable disk s ≡ false) rows a m)),
    )
    | inr (r, q, m, c, a) ↦ rw q (
      λ e. (r, m, c, ground arith),
      λ (s, k, d, t).
          let older : s.created_at ≤ r.created_at =
            All-at (λ s. is_restorable disk s ≡ true → s.created_at ≤ r.created_at) rows a k d in
          ground arith,
    )
  ]

  -- With a plan and readable tables, the audit calls the snapshots stale unless some completed record
  -- with a copy that is left is at most two intervals old, and it counts every record in exactly one
  -- of the four places.
  pub collect_snapshots-stale :
      (now : ℕ) (p : Plan.Plan) (paused_plans : List CronPlan) (rows : List Record)
      → (out : Summary × Option Record) × (collect_snapshots now disk
            (some (some p))
            (some paused_plans)
            false
            rows
          ≡ some out)
        × ((out.0.stale ≡ false) ↔ IsFresh now p rows)
        × (all_copies out.0.copies ≡ out.0.total)
  unfolding collect_snapshots list
  collect_snapshots-stale now p paused_plans rows =
      let listed = newest_first rows in
      let fresh =
        stale-newest now p listed (newest_by-NewestFirst (λ (r : Record). r.created_at) rows) in
      (
        (summary_of now disk (some p) paused_plans listed, newest_restorable disk listed),
        refl,
        (
          λ e.
              let (r, m, c, t) = fresh.0 e in
              (r, newest_by-mem (λ (r : Record). r.created_at) rows m, c, t),
          λ (r, m, c, t). fresh.1 (r, mem-newest_by (λ (r : Record). r.created_at) rows m, c, t),
        ),
        omega (arith, count_copies-all listed no_copies),
      )
