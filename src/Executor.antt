-- ===== src/Executor.antt =====
-- internal/operations/executor.go: the lock that write operations take, one at a time, and the
-- shutdown that stops new ones; reads take no lock and are not stopped. The callers of Execute and
-- ExecuteRead are threads, numbered; each stands at a point of its call, and an event is one
-- thread's next move or a call of Close. What an operation does while it runs is its own code.
pub mod Exclusion
mod Tests
use oddk.Base.{
  ℕ, Bool, true, false, not, ◌&&◌, ◌||◌, Option, none, some, List, [], ◌∷◌, ◌==◌, if◌then◌else◌,
}

pub data OpType : Type 0 where
  op_type_read op_type_write : OpType

-- Before the call, past the first check of `closing` and waiting for the lock, with the lock and
-- before the second check, in op.Execute, and returned: refused or with the operation's own result.
-- `reading` is in op.Execute of an operation of that type, called from ExecuteRead.
pub data Point : Type 0 where
  outside waiting locked running refused returned : Point
  reading : OpType → Point

pub record Executor : Type 0 where
  pub closing : Bool
  pub lock : Option ℕ
  pub point : ℕ → Point

abbrev pub new_executor : Executor
new_executor = record { closing = false; lock = none; point = λ i. outside }

pub data Event : Type 0 where
  call acquire recheck finish finish_read : ℕ → Event
  call_read : ℕ → OpType → Event
  close : Event

abbrev pub is_outside : Point → Bool
is_outside outside = true
is_outside _ = false

abbrev pub is_waiting : Point → Bool
is_waiting waiting = true
is_waiting _ = false

abbrev pub is_locked : Point → Bool
is_locked locked = true
is_locked _ = false

abbrev pub is_running : Point → Bool
is_running running = true
is_running _ = false

abbrev pub is_reading : Point → Bool
is_reading (reading t) = true
is_reading _ = false

abbrev pub is_read : OpType → Bool
is_read op_type_read = true
is_read op_type_write = false

abbrev pub is_free : Option ℕ → Bool
is_free none = true
is_free (some i) = false

abbrev pub moved : ℕ → Point → (ℕ → Point) → ℕ → Point
moved i p point j = if i == j then p else point j

-- Each move of Execute: the early return, the lock, the second check, whose refusal releases the
-- lock as every return does, and the end of the operation.
abbrev pub called : ℕ → Executor → Executor
called i e = record e { point = moved i (if e.closing then refused else waiting) e.point }

abbrev pub acquired : ℕ → Executor → Executor
acquired i e = record e { lock = some i; point = moved i locked e.point }

abbrev pub rechecked : ℕ → Executor → Executor
rechecked i e = record e {
  lock = if e.closing then none else e.lock;
  point = moved i (if e.closing then refused else running) e.point;
}

abbrev pub finished : ℕ → Executor → Executor
finished i e = record e { lock = none; point = moved i returned e.point }

-- The moves of ExecuteRead: the guard on the type, and the end of the operation.
abbrev pub called_read : ℕ → OpType → Executor → Executor
called_read i t e = record e { point = moved i (if is_read t then reading t else refused) e.point }

abbrev pub finished_read : ℕ → Executor → Executor
finished_read i e = record e { point = moved i returned e.point }

abbrev pub when : Bool → Executor → Option Executor
when true e = some e
when false e = none

-- `none` is a move that the thread cannot make now: it is elsewhere, or the lock is taken.
pub step : Event → Executor → Option Executor
step (call i) e = when (is_outside (e.point i)) (called i e)
step (acquire i) e = when (is_waiting (e.point i) && is_free e.lock) (acquired i e)
step (recheck i) e = when (is_locked (e.point i)) (rechecked i e)
step (finish i) e = when (is_running (e.point i)) (finished i e)
step (call_read i t) e = when (is_outside (e.point i)) (called_read i t e)
step (finish_read i) e = when (is_reading (e.point i)) (finished_read i e)
step close e = some record e { closing = true }

pub run : List Event → Executor → Option Executor
unfolding step
run [] e = some e
run (event ∷ rest) e = elim (step event e) [ none ↦ none | some next ↦ run rest next ]

-- Drain answers nil when it has had the lock for a moment.
pub drained : Executor → Bool
drained e = is_free e.lock
