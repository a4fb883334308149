-- ===== src/Instances/Status.antt =====
-- internal/store/instances/status.go: the vocabulary of instance statuses and its classification.
pub mod Classes
use oddk.Base.{str_eq, Bool, true, false, ◌||◌, Option, none, some, List, [], ◌∷◌, String}

-- A stored text that is none of the constants is `unknown`.
pub data InstanceStatus : Type 0 where
  running stopped error : InstanceStatus
  creating restoring switching reconfiguring upgrading : InstanceStatus
  broken broken_port broken_auth : InstanceStatus
  unknown : String → InstanceStatus

-- The texts of `interruptedRemedies`.
pub data Remedy : Type 0 where
  recreate reapply_snapshot rerun_switch reapply_parameters restore_backup : Remedy

unfoldable pub interrupted_remedy : InstanceStatus → Option Remedy
interrupted_remedy creating = some recreate
interrupted_remedy restoring = some reapply_snapshot
interrupted_remedy switching = some rerun_switch
interrupted_remedy reconfiguring = some reapply_parameters
interrupted_remedy upgrading = some restore_backup
interrupted_remedy _ = none

pub is_derived : InstanceStatus → Bool
is_derived running = true
is_derived stopped = true
is_derived broken = true
is_derived broken_port = true
is_derived broken_auth = true
is_derived _ = false

unfoldable pub is_error : InstanceStatus → Bool
is_error error = true
is_error _ = false

unfoldable pub is_terminal : InstanceStatus → Bool
is_terminal error = true
is_terminal running = true
is_terminal stopped = true
is_terminal _ = false

abbrev is_some : Option Remedy → Bool
is_some none = false
is_some (some r) = true

unfoldable pub valid : InstanceStatus → Bool
unfolding interrupted_remedy is_derived is_error
valid s = is_some (interrupted_remedy s) || is_error s || is_derived s

unfoldable pub all_statuses : List InstanceStatus
all_statuses =
    running ∷ stopped ∷ error ∷ creating ∷ restoring ∷ switching ∷ reconfiguring ∷ upgrading
    ∷ broken ∷ broken_port ∷ broken_auth ∷ []

-- `==` on statuses.
unfoldable pub same_status : InstanceStatus → InstanceStatus → Bool
same_status running running = true
same_status stopped stopped = true
same_status error error = true
same_status creating creating = true
same_status restoring restoring = true
same_status switching switching = true
same_status reconfiguring reconfiguring = true
same_status upgrading upgrading = true
same_status broken broken = true
same_status broken_port broken_port = true
same_status broken_auth broken_auth = true
same_status (unknown s) (unknown t) = str_eq s t
same_status _ _ = false
