-- ===== src/Notify.antt =====
-- internal/services/health_notifications.go: when a change of health is announced, and to whom.
-- The texts of the messages are left out. Thresholds are natural numbers: two negative ones, for which
-- SQLite would read every record, are not modelled.
pub mod Thresholds
pub mod Alternation
pub mod Delivery
mod Tests
use oddk.Base.{
  ℕ, zero, suc, ◌+◌, max, Bool, true, false, not, ◌&&◌, Option, none, some, List, [], ◌∷◌, String,
  ltb, leb, ◌==◌, length, take, all, if◌then◌else◌,
}
use oddk.Health.{HealthRecord, is_empty, get_recent_health_records}

pub data NotificationState : Type 0 where
  unknown healthy degraded : NotificationState

-- "service_degraded" and "service_restored"
pub data Kind : Type 0 where
  service_degraded service_restored : Kind

-- The records come newest first. A slice of at least `n` entries whose first `n` all pass.
abbrev pub run_of : (HealthRecord → Bool) → ℕ → List HealthRecord → Bool
run_of p n records = leb n (length records) && all p (take n records)

pub evaluate_health_state : List HealthRecord → ℕ → ℕ → NotificationState
evaluate_health_state records degraded_threshold restored_threshold =
    if is_empty records
    then unknown
    else if run_of (λ r. not r.healthy_all) degraded_threshold records
    then degraded
    else if run_of (λ r. r.healthy_all) restored_threshold records
    then healthy
    else unknown

-- `current` and the state that was last announced.
pub should_send_notification : NotificationState → NotificationState → Option Kind
should_send_notification degraded degraded = none
should_send_notification degraded _ = some service_degraded
should_send_notification healthy degraded = some service_restored
should_send_notification _ _ = none

-- What the channels answer: does the given attempt to send to a channel succeed, and is the
-- context done while the sender waits after it?
pub record Network : Type 0 where
  pub sends : String → ℕ → Bool
  pub cancelled : String → ℕ → Bool

abbrev pub max_retries : ℕ
max_retries = 3

-- True if the message was sent. `left` is the number of turns that the loop has left.
pub send_attempts : Network → String → ℕ → ℕ → Bool
send_attempts net name zero attempt = false
send_attempts net name (suc left) attempt =
    let rest = send_attempts net name left (attempt + 1) in
    if net.sends name attempt
    then true
    else if ltb attempt max_retries && net.cancelled name attempt
    then false
    else rest

pub send_with_retries : Network → String → Bool
send_with_retries net name = send_attempts net name max_retries 1

pub count_sent : Network → List String → ℕ
count_sent net [] = 0
count_sent net (name ∷ rest) = (if send_with_retries net name then 1 else 0) + count_sent net rest

-- True if there is no error: none of the channels could be listed is an error, and so is that all
-- of them failed. No channel at all is none.
pub send_health_notification : Network → Option (List String) → Bool
send_health_notification net none = false
send_health_notification net (some channels) =
    if is_empty channels then true else not (count_sent net channels == 0)

-- One evaluation: the settings, the completed records (`none` is a failed query) and the channels.
pub record Cycle : Type 0 where
  pub degraded_threshold : ℕ
  pub restored_threshold : ℕ
  pub records : Option (List HealthRecord)
  pub channels : Option (List String)
  pub net : Network

-- What is announced, if anything, and the state that is then remembered.
announce :
    Cycle → NotificationState → NotificationState → Option Kind → Option Kind × NotificationState
announce c current last none = (none, last)
announce c current last (some kind) =
    if send_health_notification c.net c.channels then (some kind, current) else (none, last)

evaluate_records : Cycle → NotificationState → List HealthRecord → Option Kind × NotificationState
unfolding announce
evaluate_records c last records =
    if is_empty records
    then (none, last)
    else (let current = evaluate_health_state records c.degraded_threshold c.restored_threshold in
        announce c current last (should_send_notification current last))

-- The query's limit is max(degraded, restored), over all completed records.
pub evaluate_and_notify : Cycle → NotificationState → Option Kind × NotificationState
unfolding evaluate_records
evaluate_and_notify c last = elim c.records [
  | none ↦ (none, last)
  | some rows ↦
      evaluate_records c last
        (get_recent_health_records (max c.degraded_threshold c.restored_threshold) rows)
]

abbrev pub note : Option Kind → List Kind → List Kind
note none kinds = kinds
note (some k) kinds = k ∷ kinds

-- What a daemon announces over a sequence of evaluations, in order.
pub announcements : NotificationState → List Cycle → List Kind
announcements last [] = []
announcements last (c ∷ rest) =
    let (kind, next) = evaluate_and_notify c last in note kind (announcements next rest)
