-- ===== src/CronTracker/Queue.antt =====
-- Runs of the queue: requests and ends of tasks in any order.
use oddk.Base.{
  ◌≡◌, ◌≢◌, refl, inl, inr, Bool, false, Option, none, some, List, [], ◌∷◌, ◌++◌, String, str_eq,
  if◌then◌else◌, All, Distinct, All-append, arith, str_eq→eq, eq→str_eq, sym, ap, subst, ◌||◌,
  Bool-cases, ◌∙◌,
}
use oddk.CronTracker.{Tracker, new_cron_task_tracker, run_task, finish_task, contains}

abbrev pub queued : Option String → List String
queued none = []
queued (some name) = name ∷ []

-- What has happened so far: the accepted requests and the started tasks, in order.
pub record Log : Type 0 where
  pub accepted : List String
  pub started : List String

-- A task ends only if one runs.
pub data Step : Tracker → Log → Tracker → Log → Type 0 where
  requested :
      {t : Tracker} {l : Log} (name : String)
      → name ≢ ""
      → Step t l (run_task t name).after record {
        accepted = l.accepted ++ (if (run_task t name).accepted then name ∷ [] else []);
        started = l.started ++ queued (run_task t name).start;
      }
  ended :
      {t : Tracker} {l : Log}
      → t.current_task ≢ ""
      → Step t l
          (finish_task t).1
          record { accepted = l.accepted; started = l.started ++ queued (finish_task t).0 }

pub data Reach : Tracker → Log → Type 0 where
  here : Reach new_cron_task_tracker record { accepted = []; started = [] }
  next : {t u : Tracker} {l m : Log} → Reach t l → Step t l u m → Reach u m

-- Requests are served in the order of their acceptance, none twice at the same time; a queue that
-- holds something has a running task, whose end serves it.
pub record IsServing (t : Tracker) (l : Log) : Type 0 where
  pub order : l.accepted ≡ l.started ++ t.pending_tasks
  pub busy : (t.current_task ≡ "") → t.pending_tasks ≡ []
  pub distinct : Distinct (λ (n : String). n) t.pending_tasks
  pub running : All (λ n. t.current_task ≢ n) t.pending_tasks
  pub named : All (λ n. n ≢ "") t.pending_tasks

append_assoc : (xs ys zs : List String) → (xs ++ ys) ++ zs ≡ xs ++ (ys ++ zs)
append_assoc [] ys zs = refl
append_assoc (x ∷ xs) ys zs = ap (λ l. x ∷ l) (append_assoc xs ys zs)

append_nil : (xs : List String) → xs ++ [] ≡ xs
append_nil [] = refl
append_nil (x ∷ xs) = ap (λ l. x ∷ l) (append_nil xs)

or-none : (a b : Bool) → (a || b) ≡ false → (a ≡ false) × (b ≡ false)
or-none a b h = ground arith

apart : (a b : String) → str_eq a b ≡ false → a ≢ b
apart a b h q = ground (arith, eq→str_eq a b q)

contains-All :
    (names : List String) (name : String) → contains names name ≡ false → All (λ n. n ≢ name) names
contains-All [] name h = tt
contains-All (n ∷ names) name h =
    let parts = or-none (str_eq n name) (contains names name) h in
    (apart n name parts.0, contains-All names name parts.1)

Distinct-append :
    (names : List String) (name : String)
    → Distinct (λ (n : String). n) names
    → All (λ n. n ≢ name) names
    → Distinct (λ (n : String). n) (names ++ name ∷ [])
Distinct-append [] name d h = (tt, tt)
Distinct-append (n ∷ names) name d h =
    (All-append (λ m. n ≢ m) names (name ∷ []) d.0 (h.0, tt), Distinct-append names name d.1 h.1)

take_next-IsServing :
    (current : String) (names accepted started : List String)
    → IsServing
        record { current_task = current; pending_tasks = names }
        record { accepted = accepted; started = started }
    → let t = finish_task record { current_task = current; pending_tasks = names } in
      IsServing t.1 record { accepted = accepted; started = started ++ queued t.0 }
unfolding finish_task
take_next-IsServing current [] accepted started s = record {
  order = s.order ∙ sym (append_nil (started ++ []));
  busy = λ e. refl;
  distinct = tt;
  running = tt;
  named = tt;
}
take_next-IsServing current (n ∷ rest) accepted started s = record {
  order = s.order ∙ sym (append_assoc started (n ∷ []) rest);
  busy = λ e. absurd (s.named.0 e);
  distinct = s.distinct.1;
  running = s.distinct.0;
  named = s.named.1;
}

refused-IsServing :
    (t : Tracker) (l : Log)
    → IsServing t l
    → IsServing t record { accepted = l.accepted ++ []; started = l.started ++ [] }
refused-IsServing t l s = record {
  order =
      append_nil l.accepted
      ∙ s.order
      ∙ ap (λ st. st ++ t.pending_tasks) (sym (append_nil l.started));
  busy = s.busy;
  distinct = s.distinct;
  running = s.running;
  named = s.named;
}

idle-IsServing :
    (t : Tracker) (l : Log) (name : String)
    → t.current_task ≡ ""
    → IsServing t l
    → IsServing
        (record t { current_task = name })
        record { accepted = l.accepted ++ name ∷ []; started = l.started ++ name ∷ [] }
idle-IsServing t l name idle s =
    let none_waits = s.busy idle in
    record {
      order =
          ap (λ a. a ++ name ∷ [])
            (s.order ∙ ap (λ p. l.started ++ p) none_waits ∙ append_nil l.started)
          ∙ sym (
              ap (λ p. (l.started ++ name ∷ []) ++ p) none_waits
              ∙ append_nil (l.started ++ name ∷ []));
      busy = λ e. none_waits;
      distinct = s.distinct;
      running = subst (All (λ n. name ≢ n)) (sym none_waits) tt;
      named = s.named;
    }

waiting-IsServing :
    (t : Tracker) (l : Log) (name : String)
    → name ≢ ""
    → t.current_task ≢ ""
    → t.current_task ≢ name
    → All (λ n. n ≢ name) t.pending_tasks
    → IsServing t l
    → IsServing
        (record t { pending_tasks = t.pending_tasks ++ name ∷ [] })
        record { accepted = l.accepted ++ name ∷ []; started = l.started ++ [] }
waiting-IsServing t l name ne busy other fresh s = record {
  order =
      ap (λ a. a ++ name ∷ []) s.order
      ∙ append_assoc l.started t.pending_tasks (name ∷ [])
      ∙ ap (λ st. st ++ (t.pending_tasks ++ name ∷ [])) (sym (append_nil l.started));
  busy = λ e. absurd (busy e);
  distinct = Distinct-append t.pending_tasks name s.distinct fresh;
  running = All-append (λ n. t.current_task ≢ n) t.pending_tasks (name ∷ []) s.running (other, tt);
  named = All-append (λ n. n ≢ "") t.pending_tasks (name ∷ []) s.named (ne, tt);
}

requested-IsServing :
    (t : Tracker) (l : Log) (name : String)
    → name ≢ ""
    → IsServing t l
    → let a = run_task t name in
      IsServing a.after record {
        accepted = l.accepted ++ (if a.accepted then name ∷ [] else []);
        started = l.started ++ queued a.start;
      }
unfolding run_task
requested-IsServing t l name ne s = elim (Bool-cases (str_eq t.current_task name)) [
  | inl e ↦ rw e (refused-IsServing t l s)
  | inr e ↦ elim (Bool-cases (contains t.pending_tasks name)) [
    | inl w ↦ rw (e, w) (refused-IsServing t l s)
    | inr w ↦ elim (Bool-cases (str_eq t.current_task "")) [
      | inl i ↦ rw (e, w, i) (idle-IsServing t l name (str_eq→eq t.current_task "" i) s)
      | inr i ↦
          rw (e, w, i)
            (waiting-IsServing t l name ne (apart t.current_task "" i) (apart t.current_task name e)
              (contains-All t.pending_tasks name w) s)
    ]
  ]
]

-- Whatever the order of requests and ends: the accepted requests are the started tasks and then the
-- waiting ones, in order; no name waits twice or waits while its task runs; and nothing waits unless
-- a task runs.
pub Reach-IsServing : {t : Tracker} {l : Log} → Reach t l → IsServing t l
unfolding new_cron_task_tracker
Reach-IsServing Reach.here = record {
  order = refl;
  busy = λ e. refl;
  distinct = tt;
  running = tt;
  named = tt;
}
Reach-IsServing (Reach.next r (Step.requested {t} {l} name ne)) =
    requested-IsServing t l name ne (Reach-IsServing r)
Reach-IsServing (Reach.next r (Step.ended {t} {l} h)) =
    take_next-IsServing t.current_task t.pending_tasks l.accepted l.started (Reach-IsServing r)
