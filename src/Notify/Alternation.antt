-- ===== src/Notify/Alternation.antt =====
-- Announcements alternate, whatever the records, the settings and the network do.
use oddk.Base.{
  subst, ◌≡◌, refl, ◌⊎◌, inl, inr, Option, none, some, List, [], ◌∷◌, arith, Option-cases,
}
use oddk.Health.{HealthRecord}
use oddk.Notify.{
  announce, evaluate_records, NotificationState, unknown, healthy, degraded, Kind, service_degraded,
  service_restored, Cycle, evaluate_and_notify, should_send_notification, announcements, note,
}

-- The kinds alternate, and the first one is the given one.
abbrev pub AlternatesFrom : Kind → List Kind → Type 0
AlternatesFrom service_degraded [] = Unit
AlternatesFrom service_restored [] = Unit
AlternatesFrom service_degraded (k ∷ rest) =
    (k ≡ service_degraded) × AlternatesFrom service_restored rest
AlternatesFrom service_restored (k ∷ rest) =
    (k ≡ service_restored) × AlternatesFrom service_degraded rest

-- What may be announced next.
abbrev pub due_after : NotificationState → Kind
due_after degraded = service_restored
due_after _ = service_degraded

abbrev NextDue : NotificationState → Option Kind → NotificationState → Type 0
NextDue last kind next =
    ((kind ≡ none) × (next ≡ last))
    ⊎ ((kind ≡ some service_degraded) × (due_after last ≡ service_degraded) × (next ≡ degraded))
    ⊎ ((kind ≡ some service_restored) × (last ≡ degraded) × (next ≡ healthy))

announce-NextDue :
    (c : Cycle) (current last : NotificationState)
    → let (kind, next) = announce c current last (should_send_notification current last) in
      NextDue last kind next
unfolding announce should_send_notification
announce-NextDue c degraded degraded = inl (refl, refl)
announce-NextDue c degraded unknown = ground arith
announce-NextDue c degraded healthy = ground arith
announce-NextDue c healthy degraded = ground arith
announce-NextDue c healthy unknown = inl (refl, refl)
announce-NextDue c healthy healthy = inl (refl, refl)
announce-NextDue c unknown last = inl (refl, refl)

records-NextDue :
    (c : Cycle) (last : NotificationState) (records : List HealthRecord)
    → NextDue last (evaluate_records c last records).0 (evaluate_records c last records).1
unfolding evaluate_records
records-NextDue c last [] = inl (refl, refl)
records-NextDue c last (r ∷ rest) = announce-NextDue c _ last

cycle-NextDue :
    (c : Cycle) (last : NotificationState)
    → NextDue last (evaluate_and_notify c last).0 (evaluate_and_notify c last).1
unfolding evaluate_and_notify
cycle-NextDue c last = elim (Option-cases c.records) [
  | inl e ↦ rw (e, evaluate_and_notify) (inl (refl, refl))
  | inr (rows, e) ↦ rw (e, evaluate_and_notify) (records-NextDue c last _)
]

one_more :
    (last next : NotificationState) (kind : Option Kind) (later : List Kind)
    → NextDue last kind next
    → AlternatesFrom (due_after next) later
    → AlternatesFrom (due_after last) (note kind later)
one_more last next kind later due h = elim due [
  | inl (k, n) ↦ rw k (subst (λ s. AlternatesFrom (due_after s) later) n h)
  | inr (inl (k, d, n)) ↦ rw (k, d) (refl, subst (λ s. AlternatesFrom (due_after s) later) n h)
  | inr (inr (k, d, n)) ↦ rw (k, d) (refl, subst (λ s. AlternatesFrom (due_after s) later) n h)
]

-- Over any sequence of evaluations, whatever the records, the settings and the network, the
-- announcements are degraded, restored, degraded, … in turn; after a degraded one the next is
-- restored, and else it is degraded.
pub announcements-AlternatesFrom :
    (last : NotificationState) (cycles : List Cycle)
    → AlternatesFrom (due_after last) (announcements last cycles)
unfolding announcements
announcements-AlternatesFrom unknown [] = tt
announcements-AlternatesFrom healthy [] = tt
announcements-AlternatesFrom degraded [] = tt
announcements-AlternatesFrom last (c ∷ rest) =
    let (kind, next) = evaluate_and_notify c last in
    one_more last next kind (announcements next rest) (cycle-NextDue c last)
      (announcements-AlternatesFrom next rest)
