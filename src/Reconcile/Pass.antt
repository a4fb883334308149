-- ===== src/Reconcile/Pass.antt =====
-- The whole pass, row by row.
use oddk.Base.{
  snoc_assoc, ◌≡◌, ◌≢◌, refl, sym, ap, ◌∙◌, inl, inr, true, false, Option, none, some, List, [],
  ◌∷◌, ◌++◌, String, str_eq, arith, if◌then◌else◌, map, any, All, Bool-cases, Option-cases, eq_iff,
  eq_refl, All-append,
}
use oddk.Instances.{Instance}
use oddk.Instances.Rows.{IsKeyed}
use oddk.Instances.Status.{InstanceStatus, running, unknown, same_status}
use oddk.Reconcile.{
  Host, observed, reconcile_set_status, apply_decision, reconcile_one, reconcile_loop,
  reconcile_instances, decide_reconcile,
}
use oddk.Reconcile.Decision.{settled, has_container, after, decide_reconcile-settled}

same_status_refl : (s : InstanceStatus) → same_status s s ≡ true
unfolding same_status
same_status_refl running = refl
same_status_refl (unknown t) = eq_refl t
same_status_refl _ = refl

-- The row that the pass leaves for a row, if the database accepts the update.
pub restate : Host → Instance → InstanceStatus → Instance
restate host r t =
    if same_status t r.status then r else record r { status = t; updated_at = host.now }

unfoldable pub settle_row : Host → Instance → Instance
unfolding restate
settle_row host r = if host.update_refused r.name then r else elim (observed host r) [
  | none ↦ r
  | some cs ↦ restate host r (settled r.status (has_container r.container_id) cs)
]

settle_row-name : (host : Host) (r : Instance) → (settle_row host r).name ≡ r.name
unfolding settle_row
settle_row-name host r = ground arith

abbrev at_name : String → (Instance → Instance) → Instance → Instance
at_name name f s = if str_eq s.name name then f s else s

apart-map :
    (name : String) (f : Instance → Instance) (rows : List Instance)
    → All (λ s. name ≢ s.name) rows
    → map (at_name name f) rows ≡ rows
apart-map name f [] h = refl
apart-map name f (s ∷ rows) h = ground (arith, apart-map name f rows h.1, eq_iff s.name name)

split-map :
    (f : Instance → Instance) (pre : List Instance) (r : Instance) (rest : List Instance)
    → All (λ s. r.name ≢ s.name) pre
    → All (λ s. r.name ≢ s.name) rest
    → map (at_name r.name f) (pre ++ r ∷ rest) ≡ pre ++ f r ∷ rest
split-map f [] r rest hp hr = rw (eq_refl r.name, apart-map r.name f rest hr) refl
split-map f (s ∷ pre) r rest hp hr =
    ground (arith, split-map f pre r rest hp.1 hr, eq_iff s.name r.name)

split-any :
    (pre : List Instance) (r : Instance) (rest : List Instance)
    → any (λ s. str_eq s.name r.name) (pre ++ r ∷ rest) ≡ true
split-any [] r rest = rw (eq_refl r.name) refl
split-any (s ∷ pre) r rest = ground (arith, split-any pre r rest)

set_status-at :
    (host : Host) (t : InstanceStatus) (pre : List Instance) (r : Instance) (rest : List Instance)
    → All (λ s. r.name ≢ s.name) pre
    → All (λ s. r.name ≢ s.name) rest
    → reconcile_set_status host r.name t (pre ++ r ∷ rest) ≡ (
        if host.update_refused r.name
        then pre ++ r ∷ rest
        else pre ++ record r { status = t; updated_at = host.now } ∷ rest)
unfolding reconcile_set_status
set_status-at host t pre r rest hp hr = elim (Bool-cases (host.update_refused r.name)) [
  | inl e ↦ rw (e, reconcile_set_status) refl
  | inr e ↦
      rw (e, split-any pre r rest, reconcile_set_status)
        (split-map (λ s. record s { status = t; updated_at = host.now }) pre r rest hp hr)
]

decided-at :
    (host : Host) (d : Option InstanceStatus) (pre : List Instance) (r : Instance)
    (rest : List Instance)
    → All (λ s. r.name ≢ s.name) pre
    → All (λ s. r.name ≢ s.name) rest
    → apply_decision host r d (pre ++ r ∷ rest)
      ≡ pre ++ (if host.update_refused r.name then r else restate host r (after r.status d)) ∷ rest
unfolding apply_decision restate
decided-at host none pre r rest hp hr = rw (same_status_refl r.status) (ground arith)
decided-at host (some t) pre r rest hp hr = ground (arith, set_status-at host t pre r rest hp hr)

reconcile_one-at :
    (host : Host) (pre : List Instance) (r : Instance) (rest : List Instance)
    → All (λ s. r.name ≢ s.name) pre
    → All (λ s. r.name ≢ s.name) rest
    → reconcile_one host r (pre ++ r ∷ rest) ≡ pre ++ settle_row host r ∷ rest
unfolding reconcile_one settle_row
reconcile_one-at host pre r rest hp hr = elim (Option-cases (observed host r)) [
  | inl e ↦ rw (e, reconcile_one) (ground arith)
  | inr (cs, e) ↦
      rw (e, reconcile_one, ← decide_reconcile-settled r.status r.container_id cs)
        (decided-at host (decide_reconcile r.status r.container_id cs).0 pre r rest hp hr)
]

extend :
    (host : Host) (r : Instance) (pre rest : List Instance)
    → All (λ s. r.name ≢ s.name) rest
    → All (λ q. All (λ s. q.name ≢ s.name) pre) rest
    → All (λ q. All (λ s. q.name ≢ s.name) (pre ++ settle_row host r ∷ [])) rest
extend host r pre [] hr hp = tt
extend host r pre (q ∷ rest) hr hp = (
  All-append (λ s. q.name ≢ s.name) pre (settle_row host r ∷ []) hp.0
      ((λ e. hr.0 (sym (settle_row-name host r) ∙ sym e)), tt),
  extend host r pre rest hr.1 hp.1,
)

loop-settles :
    (host : Host) (pre rs : List Instance)
    → IsKeyed rs
    → All (λ q. All (λ s. q.name ≢ s.name) pre) rs
    → reconcile_loop host rs (pre ++ rs) ≡ pre ++ map (settle_row host) rs
unfolding reconcile_loop
loop-settles host pre [] k h = refl
loop-settles host pre (r ∷ rest) k h =
    let x = settle_row host r in
    ap (reconcile_loop host rest)
      (reconcile_one-at host pre r rest h.0 k.0 ∙ sym (snoc_assoc pre x rest))
    ∙ loop-settles host (pre ++ x ∷ []) rest k.1 (extend host r pre rest k.0 h.1)
    ∙ snoc_assoc pre x (map (settle_row host) rest)

All-apart :
    (rows : List Instance) → All (λ (q : Instance). All (λ (s : Instance). q.name ≢ s.name) []) rows
All-apart [] = tt
All-apart (r ∷ rows) = (tt, All-apart rows)

-- Over a table keyed by name, the pass rewrites each row on its own: a row whose container could
-- be inspected and whose update is accepted gets the described status, and the clock if that is a
-- new one; any other row is as it was.
pub reconcile_instances-settles :
    (host : Host) (rows : List Instance)
    → IsKeyed rows
    → reconcile_instances false host rows ≡ map (settle_row host) rows
unfolding reconcile_instances
reconcile_instances-settles host rows k = loop-settles host [] rows k (All-apart rows)
