-- ===== src/Notify/Tests.antt =====
-- Three failed checks, a recovery, and a channel that answers on the second attempt.
use oddk.Base.{ℕ, ◌≡◌, ◌↔◌, refl, Bool, true, false, some, List, [], ◌∷◌, arith, All, ◌==◌, max}
use oddk.Health.{HealthRecord, get_recent_health_records}
use oddk.Notify.{
  unknown, healthy, degraded, service_degraded, service_restored, Network, Cycle, announcements,
  evaluate_and_notify, evaluate_health_state, send_health_notification, should_send_notification,
  send_with_retries, send_attempts, count_sent,
}
use oddk.Notify.Alternation.{announcements-AlternatesFrom, AlternatesFrom, due_after}
use oddk.Notify.Thresholds.{evaluate_health_state-NewestAll, NewestAll, completed}
use oddk.Notify.Delivery.{send_health_notification-failed, gets_through}

abbrev check : ℕ → Bool → HealthRecord
check n well = record {
  id = n;
  ts_unix = n;
  in_progress = false;
  healthy_all = well;
  healthy_host = well;
  healthy_instances = "";
  broken_instances = "";
  fail_details = "";
}

abbrev slow : Network
slow = record { sends = λ c n. n == 2; cancelled = λ c n. false }

abbrev cycle : List HealthRecord → Cycle
cycle rows = record {
  degraded_threshold = 3;
  restored_threshold = 2;
  records = some rows;
  channels = some ("ops" ∷ []);
  net = slow;
}

abbrev failing : List HealthRecord
failing = check 1 true ∷ check 2 false ∷ check 3 false ∷ check 4 false ∷ []

abbrev recovered : List HealthRecord
recovered = check 2 false ∷ check 3 false ∷ check 4 false ∷ check 5 true ∷ check 6 true ∷ []

abbrev story : List Cycle
story = cycle failing ∷ cycle failing ∷ cycle recovered ∷ cycle failing ∷ []

story_told :
    announcements unknown story ≡ service_degraded ∷ service_restored ∷ service_degraded ∷ []
unfolding announcements evaluate_and_notify evaluate_health_state should_send_notification
    send_health_notification count_sent send_with_retries send_attempts get_recent_health_records
story_told = refl

announcements-AlternatesFrom_example :
    AlternatesFrom (due_after unknown) (announcements unknown story)
announcements-AlternatesFrom_example = announcements-AlternatesFrom unknown story

evaluate_health_state-NewestAll_example :
    let state = evaluate_health_state (get_recent_health_records (max 3 2) failing) 3 2 in
    ((state ≡ degraded) ↔ NewestAll false 3 (completed failing))
    × ((state ≡ healthy) ↔ NewestAll true 2 (completed failing))
evaluate_health_state-NewestAll_example =
    evaluate_health_state-NewestAll 3 2 failing (omega arith) (omega arith)

send_health_notification-failed_example :
    (send_health_notification slow (some ("ops" ∷ [])) ≡ false)
    ↔ All (λ c. gets_through slow c ≡ false) ("ops" ∷ [])
send_health_notification-failed_example = send_health_notification-failed slow "ops" []
