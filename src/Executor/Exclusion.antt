-- ===== src/Executor/Exclusion.antt =====
-- The lock, and the shutdown.
use mathlib.Core.Bool.{true≢false}
use oddk.Base.{
  ℕ, ◌≡◌, refl, sym, subst, ap, ◌∙◌, ◌⊎◌, inl, inr, Bool, true, false, ◌&&◌, ◌||◌, Option, none,
  some, List, [], ◌∷◌, ◌==◌, arith, Bool-cases,
}
use oddk.Executor.{
  Point, Executor, new_executor, Event, is_locked, is_running, is_free, is_outside, is_waiting,
  OpType, op_type_read, op_type_write, is_read, is_reading, called_read, finished_read, when, step,
  run, drained, called, acquired, rechecked, finished,
}

abbrev holds : Point → Bool
holds p = is_locked p || is_running p

abbrev held_by : Option ℕ → ℕ → Bool
held_by none i = false
held_by (some j) i = j == i

abbrev reads_only : Point → Bool
reads_only (Point.reading t) = is_read t
reads_only _ = true

-- A thread is past the lock and not yet returned exactly if the lock is its, and what ExecuteRead
-- runs is a read.
pub record IsExclusive (e : Executor) : Type 0 where
  pub owner : (i : ℕ) → holds (e.point i) ≡ held_by e.lock i
  pub readers : (i : ℕ) → reads_only (e.point i) ≡ true

unlocked : (p : Point) → is_reading p ≡ true → holds p ≡ false
unlocked (Point.reading t) h = refl
unlocked _ h = ground arith

module _ (e : Executor) (x : IsExclusive e) (i : ℕ) where
  called-IsExclusive : is_outside (e.point i) ≡ true → IsExclusive (called i e)
  called-IsExclusive h = record {
    owner = λ j. ground (arith, x.owner i, x.owner j);
    readers = λ j. ground (arith, x.readers j);
  }

  acquired-IsExclusive :
      is_waiting (e.point i) && is_free e.lock ≡ true → IsExclusive (acquired i e)
  acquired-IsExclusive h = record {
    owner = λ j. ground (arith, x.owner i, x.owner j);
    readers = λ j. ground (arith, x.readers j);
  }

  rechecked-IsExclusive : is_locked (e.point i) ≡ true → IsExclusive (rechecked i e)
  rechecked-IsExclusive h = record {
    owner = λ j. ground (arith, x.owner i, x.owner j);
    readers = λ j. ground (arith, x.readers j);
  }

  finished-IsExclusive : is_running (e.point i) ≡ true → IsExclusive (finished i e)
  finished-IsExclusive h = record {
    owner = λ j. ground (arith, x.owner i, x.owner j);
    readers = λ j. ground (arith, x.readers j);
  }

  called_read-IsExclusive :
      (t : OpType) → is_outside (e.point i) ≡ true → IsExclusive (called_read i t e)
  called_read-IsExclusive op_type_read h = record {
    owner = λ j. ground (arith, x.owner i, x.owner j);
    readers = λ j. ground (arith, x.readers j);
  }
  called_read-IsExclusive op_type_write h = record {
    owner = λ j. ground (arith, x.owner i, x.owner j);
    readers = λ j. ground (arith, x.readers j);
  }

  finished_read-IsExclusive : is_reading (e.point i) ≡ true → IsExclusive (finished_read i e)
  finished_read-IsExclusive h = record {
    owner = λ j. ground (arith, x.owner i, x.owner j, unlocked (e.point i) h);
    readers = λ j. ground (arith, x.readers j);
  }

when-some : (b : Bool) (e t : Executor) → when b e ≡ some t → (b ≡ true) × (e ≡ t)
when-some true e t h = (refl, ap (λ o. elim o [ none ↦ e | some r ↦ r ]) h)
when-some false e t h = ground arith

step-IsExclusive :
    (event : Event) (e t : Executor) → step event e ≡ some t → IsExclusive e → IsExclusive t
unfolding step
step-IsExclusive (Event.call i) e t h x =
    let (b, q) = when-some (is_outside (e.point i)) (called i e) t h in
    subst IsExclusive q (called-IsExclusive e x i b)
step-IsExclusive (Event.acquire i) e t h x =
    let (b, q) = when-some (is_waiting (e.point i) && is_free e.lock) (acquired i e) t h in
    subst IsExclusive q (acquired-IsExclusive e x i b)
step-IsExclusive (Event.recheck i) e t h x =
    let (b, q) = when-some (is_locked (e.point i)) (rechecked i e) t h in
    subst IsExclusive q (rechecked-IsExclusive e x i b)
step-IsExclusive (Event.finish i) e t h x =
    let (b, q) = when-some (is_running (e.point i)) (finished i e) t h in
    subst IsExclusive q (finished-IsExclusive e x i b)
step-IsExclusive (Event.call_read i o) e t h x =
    let (b, q) = when-some (is_outside (e.point i)) (called_read i o e) t h in
    subst IsExclusive q (called_read-IsExclusive e x i o b)
step-IsExclusive (Event.finish_read i) e t h x =
    let (b, q) = when-some (is_reading (e.point i)) (finished_read i e) t h in
    subst IsExclusive q (finished_read-IsExclusive e x i b)
step-IsExclusive Event.close e t h x =
    subst IsExclusive (when-some true (record e { closing = true }) t h).1
      record { owner = x.owner; readers = x.readers }

-- Closed, and every operation that runs is one that ran in `e`.
record IsClosing (e t : Executor) : Type 0 where
  closed : t.closing ≡ true
  old : (i : ℕ) → is_running (t.point i) ≡ true → is_running (e.point i) ≡ true

module _ (e : Executor) (c : e.closing ≡ true) (i : ℕ) where
  called-IsClosing : IsClosing e (called i e)
  called-IsClosing = record { closed = c; old = λ j. ground arith }

  acquired-IsClosing : IsClosing e (acquired i e)
  acquired-IsClosing = record { closed = c; old = λ j. ground arith }

  rechecked-IsClosing : IsClosing e (rechecked i e)
  rechecked-IsClosing = record { closed = c; old = λ j. ground arith }

  finished-IsClosing : IsClosing e (finished i e)
  finished-IsClosing = record { closed = c; old = λ j. ground arith }

  called_read-IsClosing : (t : OpType) → IsClosing e (called_read i t e)
  called_read-IsClosing op_type_read = record { closed = c; old = λ j. ground arith }
  called_read-IsClosing op_type_write = record { closed = c; old = λ j. ground arith }

  finished_read-IsClosing : IsClosing e (finished_read i e)
  finished_read-IsClosing = record { closed = c; old = λ j. ground arith }

step-IsClosing :
    (event : Event) (e t : Executor) → step event e ≡ some t → e.closing ≡ true → IsClosing e t
unfolding step
step-IsClosing (Event.call i) e t h c =
    subst (IsClosing e) (when-some (is_outside (e.point i)) (called i e) t h).1
      (called-IsClosing e c i)
step-IsClosing (Event.acquire i) e t h c =
    subst (IsClosing e) (when-some (is_waiting (e.point i) && is_free e.lock) (acquired i e) t h).1
      (acquired-IsClosing e c i)
step-IsClosing (Event.recheck i) e t h c =
    subst (IsClosing e) (when-some (is_locked (e.point i)) (rechecked i e) t h).1
      (rechecked-IsClosing e c i)
step-IsClosing (Event.finish i) e t h c =
    subst (IsClosing e) (when-some (is_running (e.point i)) (finished i e) t h).1
      (finished-IsClosing e c i)
step-IsClosing (Event.call_read i o) e t h c =
    subst (IsClosing e) (when-some (is_outside (e.point i)) (called_read i o e) t h).1
      (called_read-IsClosing e c i o)
step-IsClosing (Event.finish_read i) e t h c =
    subst (IsClosing e) (when-some (is_reading (e.point i)) (finished_read i e) t h).1
      (finished_read-IsClosing e c i)
step-IsClosing Event.close e t h c =
    subst (IsClosing e) (when-some true (record e { closing = true }) t h).1
      record { closed = refl; old = λ i r. r }

-- A run of at least one event is its first step and the rest.
run-cons :
    (event : Event) (rest : List Event) (e t : Executor)
    → run (event ∷ rest) e ≡ some t
    → (next : Executor) × (step event e ≡ some next) × (run rest next ≡ some t)
unfolding run
run-cons event rest e t h = split (step event e) refl h
  where
    split :
        (o : Option Executor)
        → step event e ≡ o
        → elim o [ none ↦ none | some next ↦ run rest next ] ≡ some t
        → (next : Executor) × (step event e ≡ some next) × (run rest next ≡ some t)
    split none q h = ground arith
    split (some next) q h = (next, q, h)

run-IsExclusive :
    (events : List Event) (e t : Executor) → run events e ≡ some t → IsExclusive e → IsExclusive t
unfolding run
run-IsExclusive [] e t h x = subst IsExclusive (when-some true e t h).1 x
run-IsExclusive (event ∷ rest) e t h x =
    let (next, now, later) = run-cons event rest e t h in
    run-IsExclusive rest next t later (step-IsExclusive event e next now x)

run-IsClosing :
    (events : List Event) (e t : Executor)
    → run events e ≡ some t
    → e.closing ≡ true
    → IsClosing e t
unfolding run
run-IsClosing [] e t h c =
    subst (IsClosing e) (when-some true e t h).1 record { closed = c; old = λ i r. r }
run-IsClosing (event ∷ rest) e t h c =
    let (next, now, later) = run-cons event rest e t h in
    let first = step-IsClosing event e next now c in
    let end = run-IsClosing rest next t later first.closed in
    record { closed = end.closed; old = λ i r. first.old i (end.old i r) }

new_executor-IsExclusive : IsExclusive new_executor
new_executor-IsExclusive = record { owner = λ i. refl; readers = λ i. refl }

held_once :
    (e : Executor) (i j : ℕ)
    → IsExclusive e
    → is_running (e.point i) ≡ true
    → is_running (e.point j) ≡ true
    → i ≡ j
held_once e i j x a b = ground (arith, x.owner i, x.owner j)

held_lock :
    (e : Executor) (i : ℕ) → IsExclusive e → is_running (e.point i) ≡ true → is_free e.lock ≡ false
held_lock e i x a = ground (arith, x.owner i)

abbrev pub is_executing : Point → Bool
is_executing p = is_running p || is_reading p

-- What is in op.Execute without the lock is a read.
unlocked-reading :
    (p : Point)
    → is_running p ≡ false
    → reads_only p ≡ true
    → is_executing p ≡ true
    → p ≡ Point.reading op_type_read
unlocked-reading (Point.reading op_type_read) n r x = refl
unlocked-reading (Point.reading op_type_write) n r x = ground arith
unlocked-reading Point.outside n r x = ground arith
unlocked-reading Point.waiting n r x = ground arith
unlocked-reading Point.locked n r x = ground arith
unlocked-reading Point.running n r x = ground arith
unlocked-reading Point.refused n r x = ground arith
unlocked-reading Point.returned n r x = ground arith

-- After any events of a new executor, while a thread is in op.Execute from Execute, every other
-- thread that is in op.Execute runs a read-only operation from ExecuteRead, and Drain does not
-- answer.
pub run-exclusive :
    (events : List Event) (e : Executor) (i j : ℕ)
    → run events new_executor ≡ some e
    → is_running (e.point i) ≡ true
    → (is_executing (e.point j) ≡ true → (i ≡ j) ⊎ (e.point j ≡ Point.reading op_type_read))
      × (drained e ≡ false)
unfolding drained
run-exclusive events e i j h a =
    let x = run-IsExclusive events new_executor e h new_executor-IsExclusive in
    (
      λ b. elim (Bool-cases (is_running (e.point j))) [
        | inl r ↦ inl (held_once e i j x a r)
        | inr n ↦ inr (unlocked-reading (e.point j) n (x.readers j) b)
      ],
      held_lock e i x a,
    )

not-running :
    (e : Executor) (i : ℕ)
    → IsExclusive e
    → is_free e.lock ≡ true
    → is_running (e.point i) ≡ true
    → true ≡ false
not-running e i x d r = sym d ∙ held_lock e i x r

-- A graceful stop: once Close has been called and Drain has answered, whatever the callers do, also
-- those that waited for the lock before, every thread that is in op.Execute runs a read-only
-- operation from ExecuteRead.
pub run-drained :
    (events later : List Event) (e t : Executor) (i : ℕ)
    → run events new_executor ≡ some e
    → e.closing ≡ true
    → drained e ≡ true
    → run later e ≡ some t
    → is_executing (t.point i) ≡ true
    → t.point i ≡ Point.reading op_type_read
unfolding drained
run-drained events later e t i h c d l b =
    let x = run-IsExclusive events new_executor e h new_executor-IsExclusive in
    let closing = run-IsClosing later e t l c in
    elim (Bool-cases (is_running (t.point i))) [
      | inl r ↦ absurd (true≢false (not-running e i x d (closing.old i r)))
      | inr n ↦ unlocked-reading (t.point i) n ((run-IsExclusive later e t l x).readers i) b
    ]
