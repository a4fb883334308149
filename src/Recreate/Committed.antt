-- ===== src/Recreate/Committed.antt =====
-- What a reconfiguration, or another image, leaves in the row of the instance.
use oddk.Base.{
  ◌≡◌, refl, sym, ap, ◌∙◌, subst, ◌⊎◌, inl, inr, true, false, Option, none, some, String, List,
  arith, Bool-cases, ok,
}
use oddk.Instances.{Instance, marked, get, update_status}
use oddk.Instances.Rows.{IsKeyed}
use oddk.Instances.Sets.{Sets-self, Sets-trans}
use oddk.Instances.Status.{InstanceStatus, running, error, same_status}
use oddk.Recreate.Docker.{
  Engine, ClusterSpec, Parameter, Attempt, Statement, forward, rollback, spec_from_instance,
  mark_changing, restore_status,
}
use oddk.Recreate.{
  Outcome, ChangeError, invalid, rolled_back, broken, unrecorded, database, instance_row, conflict,
  no_group, no_password, apply_cluster_change, put_on, committed, with_status_back,
}
use oddk.Recreate.Leaves.{Leaves, stays-Leaves, write-Leaves}
use oddk.Recreate.Changed.{kept, IsReady, Changed, apply_cluster_change-Leaves}

-- The container is ready, and was made from what the row says, with the image `i`.
abbrev pub Runs : Engine → Attempt → Instance → String → String → String → Type 0
Runs e a r i old id =
    (password : String) × (parameters : List Parameter) × (e.decrypted r.password ≡ some password)
    × (e.group r.parameter_group ≡ some parameters)
    × IsReady e a (record (spec_from_instance r password parameters) { image = i }) old id

-- What the operation leaves, by its error, in the row that was `inst`, where `target` has the shape
-- asked for and `status` marks the change.
abbrev pub Settled :
    Engine → Instance → Instance → InstanceStatus → Option ChangeError → Instance → Type 0
Settled e inst target status none x =
    (kept x ≡ kept target)
    × (x.status ≡ running)
    × Runs e forward x x.image inst.container_id x.container_id
Settled e inst target status (some rolled_back) x =
    (kept x ≡ kept inst)
    × (x.status ≡ running)
    × ((i : String) × (id : String) × Runs e rollback x i id x.container_id)
Settled e inst target status (some broken) x = (kept x ≡ kept inst) × (x.status ≡ error)
Settled e inst target status (some invalid) x =
    (kept x ≡ kept inst)
    × (x.container_id ≡ inst.container_id)
    × ((x.status ≡ inst.status) ⊎ ((inst.status ≡ error) × (x.status ≡ status)))
Settled e inst target status (some database) x = true ≡ false
Settled e inst target status (some unrecorded) x = true ≡ false
Settled e inst target status (some _) x = x ≡ inst

-- The specs of a change are made from the row: the new one by what the target's row names, the old one
-- by what the instance's does.
abbrev pub AreSpecs : Engine → Instance → Instance → ClusterSpec → ClusterSpec → Type 0
AreSpecs e inst target next prev =
    (password : String) × (parameters : List Parameter) × (current : List Parameter) × (e.decrypted
        inst.password
      ≡ some password)
    × (e.group target.parameter_group ≡ some parameters)
    × (e.group inst.parameter_group ≡ some current)
    × (next ≡ spec_from_instance target password parameters)
    × (prev ≡ spec_from_instance inst password current)

same_status-error : (s : InstanceStatus) → same_status s error ≡ true → s ≡ error
unfolding same_status
same_status-error error h = refl
same_status-error _ h = ground arith

module _ (e : Engine) (accepted : (s : Statement) → e.refuses s ≡ false) where
  module _ (inst target : Instance) (status : InstanceStatus) (next prev : ClusterSpec)
      (commit : List Instance → Outcome) where
    with_status_back-Leaves :
        (r : Instance) (rows : List Instance)
        → IsKeyed rows
        → get false inst.name rows ≡ ok r
        → kept r ≡ kept inst
        → r.container_id ≡ inst.container_id
        → r.status ≡ status
        → Leaves
            (Settled e inst target status)
            inst.name
            rows
            (some invalid, with_status_back e inst rows)
    unfolding update_status
    with_status_back-Leaves r rows keyed there same contained was =
        elim (Bool-cases (same_status inst.status error)) [
          | inl b ↦ rw b (
              stays-Leaves (Settled e inst target status) inst.name (some invalid) r rows keyed
                there (same, contained, inr (same_status-error inst.status b, was)))
          | inr b ↦ rw b (
              write-Leaves (Settled e inst target status) inst.name (e.refuses restore_status)
                (λ q. record q { status = inst.status; updated_at = e.now }) (λ q. refl) r rows
                (λ out. (some invalid, marked rows out)) (accepted restore_status) keyed there
                λ after k s.
                  stays-Leaves (Settled e inst target status) inst.name (some invalid) _ after k s
                    (same, contained, inl refl))
        ]

    committed-Leaves :
        AreSpecs e inst target next prev
        → (r : Instance) (rows : List Instance) → kept r ≡ kept inst
        → r.container_id ≡ inst.container_id
        → r.status ≡ status
        → ((x : Instance) (after : List Instance)
            → IsKeyed after
            → get false inst.name after ≡ ok x
            → kept x ≡ kept inst
            → IsReady e forward next inst.container_id x.container_id
            → Leaves (Settled e inst target status) inst.name after (commit after))
        → (out : Outcome) → Leaves (Changed e next prev inst.container_id r) inst.name rows out
        → Leaves (Settled e inst target status) inst.name rows (committed e inst commit out)
    committed-Leaves specs r rows same contained was go (none, after) (x, s, p) =
        let (y, u, q) = go x after s.0 (Sets-self inst.name x rows after s) (p.0 ∙ same) p.2 in
        (y, Sets-trans inst.name x y rows after (commit after).1 s u, q)
    committed-Leaves specs r rows same contained was go (some invalid, after) (x, s, k) =
        let (y, u, q) =
          with_status_back-Leaves x after s.0 (Sets-self inst.name x rows after s)
            (ap kept k ∙ same) (ap (λ z. z.container_id) k ∙ contained)
            (ap (λ z. z.status) k ∙ was) in
        (y, Sets-trans inst.name x y rows after (with_status_back e inst after) s u, q)
    committed-Leaves specs r rows same contained was go (some rolled_back, after) (x, s, p) =
        let (password, parameters, current, dec, _, gi, _, pv) = specs in
        let (i, id, ready) = p.2 in
        let runs : Runs e rollback (kept inst) i id x.container_id = (
          password,
          current,
          dec,
          gi,
          subst (λ z. IsReady e rollback (record z { image = i }) id x.container_id) pv ready,
        ) in
        (
          x,
          s,
          (
            p.0 ∙ same,
            p.1,
            (i, id, subst (λ z. Runs e rollback z i id x.container_id) (sym (p.0 ∙ same)) runs),
          ),
        )
    committed-Leaves specs r rows same contained was go (some broken, after) (x, s, p) =
        (x, s, (p.0 ∙ same, p.1))
    committed-Leaves specs r rows same contained was go (some database, after) (x, s, k) = (x, s, k)
    committed-Leaves specs r rows same contained was go (some unrecorded, after) (x, s, k) =
        (x, s, k)
    committed-Leaves specs r rows same contained was go (some conflict, after) (x, s, k) =
        (x, s, ground arith)
    committed-Leaves specs r rows same contained was go (some instance_row, after) (x, s, k) =
        (x, s, ground arith)
    committed-Leaves specs r rows same contained was go (some no_group, after) (x, s, k) =
        (x, s, ground arith)
    committed-Leaves specs r rows same contained was go (some no_password, after) (x, s, k) =
        (x, s, ground arith)

    pub put_on-Leaves :
        AreSpecs e inst target next prev
        → target.name ≡ inst.name
        → (rows : List Instance) → IsKeyed rows
        → get false inst.name rows ≡ ok inst
        → ((x : Instance) (after : List Instance)
            → IsKeyed after
            → get false inst.name after ≡ ok x
            → kept x ≡ kept inst
            → IsReady e forward next inst.container_id x.container_id
            → Leaves (Settled e inst target status) inst.name after (commit after))
        → Leaves
            (Settled e inst target status)
            inst.name
            rows
            (put_on e inst next prev status commit rows)
    unfolding update_status
    put_on-Leaves specs same_name rows keyed there go =
        let (password, parameters, current, dec, gt, gi, nx, pv) = specs in
        write-Leaves (Settled e inst target status) inst.name (e.refuses mark_changing)
          (λ q. record q { status = status; updated_at = e.now }) (λ q. refl) inst rows
          (λ out.
            committed e inst commit
              (apply_cluster_change e next prev inst.container_id (marked rows out)))
          (accepted mark_changing) keyed there
          λ after k s.
            committed-Leaves specs (record inst { status = status; updated_at = e.now }) after refl
              refl refl go _
              (apply_cluster_change-Leaves e next prev inst.container_id
                (record inst { status = status; updated_at = e.now }) accepted after
                (ap (λ z. z.name) nx ∙ same_name) k s)
