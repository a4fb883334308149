-- ===== src/Reconcile/Decision.antt =====
-- The decision against an independent description of where each status must end.
use oddk.Base.{
  ◌≡◌, ◌≢◌, Bool, true, false, Option, none, some, String, str_eq, arith, if◌then◌else◌,
}
use oddk.Instances.Status.{
  InstanceStatus, running, stopped, error, broken, broken_port, broken_auth,
}
use oddk.Reconcile.{ContainerState, up, down, not_found, decide_reconcile}

-- The status after the pass, row by row: an interrupted or unknown status is an error, an error
-- stays, and any other follows the container.
abbrev pub follow : InstanceStatus → Bool → ContainerState → InstanceStatus
follow s false cs = error
follow s true up = running
follow s true down = stopped
follow s true not_found = error
follow s true _ = s

abbrev pub settled : InstanceStatus → Bool → ContainerState → InstanceStatus
settled running has cs = follow running has cs
settled stopped has cs = follow stopped has cs
settled broken has cs = follow broken has cs
settled broken_port has cs = follow broken_port has cs
settled broken_auth has cs = follow broken_auth has cs
settled _ has cs = error

abbrev pub has_container : String → Bool
has_container id = if str_eq id "" then false else true

abbrev pub after : InstanceStatus → Option InstanceStatus → InstanceStatus
after s none = s
after s (some t) = t

-- For every status, container id and container state, the decision leads to the status that the
-- description gives.
pub decide_reconcile-settled :
    (s : InstanceStatus) (id : String) (cs : ContainerState)
    → after s (decide_reconcile s id cs).0 ≡ settled s (has_container id) cs
unfolding decide_reconcile
decide_reconcile-settled running id cs = ground arith
decide_reconcile-settled _ id cs = ground arith

-- A decision never writes the status that is stored.
pub decide_reconcile-changes :
    (s : InstanceStatus) (id : String) (cs : ContainerState) {t : InstanceStatus}
    → (decide_reconcile s id cs).0 ≡ some t
    → t ≢ s
unfolding decide_reconcile
decide_reconcile-changes running id cs h = ground arith
decide_reconcile-changes _ id cs h = ground arith

-- A second decision about the status that the first one leaves changes nothing.
pub decide_reconcile_idem :
    (s : InstanceStatus) (id : String) (cs : ContainerState)
    → (decide_reconcile (after s (decide_reconcile s id cs).0) id cs).0 ≡ none
unfolding decide_reconcile
decide_reconcile_idem running id cs = ground arith
decide_reconcile_idem _ id cs = ground arith
