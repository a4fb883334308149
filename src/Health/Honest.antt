-- ===== src/Health/Honest.antt =====
-- A completed record is green only if a finished check found everything healthy: no start, crash,
-- restart or clean-up makes one.
use oddk.Base.{
  All-map, All-map_into, All-filter, subst, Memᴰ, ◌++◌, ◌==◌, ==→eq, Bool-cases, inl, inr, ℕ, ◌≡◌,
  refl, Bool, true, false, some, List, [], ◌∷◌, String, arith, All, ◌&&◌,
}
use oddk.Health.{
  fresh_record, HealthRecord, join, is_empty, append_row, start_health_check, update_health_check,
  interrupt, reset_in_progress_records, cleanup_old_records, at_id,
}

-- What a finished check reported about the host and the broken instances. The reports of a run are
-- kept beside the table, which forgets them.
pub record Report : Type 0 where
  pub id : ℕ
  pub host : Bool
  pub broken : List String

-- A completed record that says that all is well stands for a finished check with its id that found
-- a healthy host and no broken instance.
abbrev pub IsHonest : List Report → HealthRecord → Type 0
IsHonest reports r =
    r.in_progress ≡ false
    → r.healthy_all ≡ true
    → Memᴰ record { id = r.id; host = true; broken = [] } reports
      × (r.healthy_host ≡ true)
      × (r.broken_instances ≡ "")

-- The operations of the store, as the daemon calls them: checks, clean-ups, and restarts that may
-- follow a crash at any point. A step says what it reports.
pub data Step (rows : List HealthRecord) : List Report → List HealthRecord → Type 0 where
  started :
      (now id : ℕ) {r : HealthRecord} {rows' : List HealthRecord}
      → start_health_check false now id rows ≡ some (r, rows')
      → Step rows [] rows'
  finished :
      (id : ℕ) (host : Bool) (healthy broken : List String) (details : String)
      {rows' : List HealthRecord}
      → update_health_check false id host healthy broken details rows ≡ some rows'
      → Step rows (record { id = id; host = host; broken = broken } ∷ []) rows'
  restarted :
      {rows' : List HealthRecord}
      → reset_in_progress_records false rows ≡ some rows'
      → Step rows [] rows'
  cleaned :
      (now older_than : ℕ) {rows' : List HealthRecord}
      → cleanup_old_records false now older_than rows ≡ some rows'
      → Step rows [] rows'

-- The tables that an empty one can become, with the reports on the way.
pub data Reach : List Report → List HealthRecord → Type 0 where
  here : Reach [] []
  next :
      {reports said : List Report} {rows rows' : List HealthRecord}
      → Reach reports rows
      → Step rows said rows'
      → Reach (said ++ reports) rows'

All-append_row :
    (P : HealthRecord → Type 0) (rows : List HealthRecord) (r : HealthRecord)
    → All P rows
    → P r
    → All P (append_row rows r)
All-append_row P [] r h hr = (hr, tt)
All-append_row P (s ∷ rows) r h hr = (h.0, All-append_row P rows r h.1 hr)

join-empty : (broken : List String) → is_empty broken ≡ true → join broken ≡ ""
unfolding join
join-empty [] h = refl
join-empty (b ∷ rest) h = cc

empty : (broken : List String) → is_empty broken ≡ true → broken ≡ []
empty [] h = refl
empty (b ∷ rest) h = ground arith

abbrev completed : Bool → List String → String → String → HealthRecord → HealthRecord
completed host broken texts details s = record s {
  in_progress = false;
  healthy_all = host && is_empty broken;
  healthy_host = host;
  healthy_instances = texts;
  broken_instances = join broken;
  fail_details = details;
}

-- The reported check is the one that the row stands for.
completed-IsHonest :
    (reports : List Report) (host : Bool) (broken : List String) (texts details : String)
    (r : HealthRecord)
    → IsHonest
        (record { id = r.id; host = host; broken = broken } ∷ reports)
        (completed host broken texts details r)
completed-IsHonest reports host broken texts details r done well =
    let healthy : host ≡ true = ground arith in
    let none_broken : is_empty broken ≡ true = ground arith in
    (
      Memᴰ.head (rw (healthy, empty broken none_broken) refl),
      healthy,
      join-empty broken none_broken,
    )

finish-IsHonest :
    (reports : List Report) (id : ℕ) (host : Bool) (broken : List String) (texts details : String)
    (r : HealthRecord)
    → IsHonest reports r
    → IsHonest
        (record { id = id; host = host; broken = broken } ∷ reports)
        (at_id id (completed host broken texts details) r)
finish-IsHonest reports id host broken texts details r h = elim (Bool-cases (r.id == id)) [
  | inl e ↦ rw e (
      subst
        (λ k.
          IsHonest (record { id = k; host = host; broken = broken } ∷ reports)
            (completed host broken texts details r))
        (==→eq r.id id e) (completed-IsHonest reports host broken texts details r))
  | inr e ↦ rw e (λ done well. let q = h done well in (Memᴰ.tail q.0, q.1, q.2))
]

interrupt-IsHonest :
    (reports : List Report) (r : HealthRecord) → IsHonest reports r → IsHonest reports (interrupt r)
unfolding interrupt
interrupt-IsHonest reports r h = elim (Bool-cases r.in_progress) [
  | inl e ↦ rw e (λ done well. ground arith)
  | inr e ↦ rw e (λ done well. h e well)
]

some-eq : (a b : List HealthRecord) → some a ≡ some b → a ≡ b
some-eq a b e = cc

Step-IsHonest :
    (reports : List Report) {said : List Report} {rows rows' : List HealthRecord}
    → Step rows said rows'
    → All (IsHonest reports) rows
    → All (IsHonest (said ++ reports)) rows'
unfolding start_health_check update_health_check reset_in_progress_records cleanup_old_records
Step-IsHonest reports {rows} {rows'} (started now id {r} e) h =
    let same : append_row rows (fresh_record now id) ≡ rows' = cc in
    subst (All (IsHonest reports)) same (
      All-append_row (IsHonest reports) rows (fresh_record now id) h
        (λ done well. absurd (ground arith)))
Step-IsHonest reports {rows} (finished id host healthy broken details e) h =
    let said = record { id = id; host = host; broken = broken } ∷ reports in
    subst (All (IsHonest said)) (some-eq _ _ e) (
      All-map_into (IsHonest reports) (IsHonest said) _ rows
        (finish-IsHonest reports id host broken (join healthy) details) h)
Step-IsHonest reports {rows} (restarted e) h =
    subst (All (IsHonest reports)) (some-eq _ _ e)
      (All-map (IsHonest reports) interrupt rows (interrupt-IsHonest reports) h)
Step-IsHonest reports {rows} (cleaned now older e) h =
    subst (All (IsHonest reports)) (some-eq _ _ e) (All-filter (IsHonest reports) _ rows h)

-- Whatever checks, crashes, restarts and clean-ups there were, from an empty table on: a completed
-- record that says that all is well has a healthy host and no broken instance, and a check with its
-- id was finished with that result.
pub Reach-IsHonest :
    {reports : List Report} {rows : List HealthRecord}
    → Reach reports rows
    → All (IsHonest reports) rows
Reach-IsHonest here = tt
Reach-IsHonest (next {reports} reach step) = Step-IsHonest reports step (Reach-IsHonest reach)
