-- ===== src/Recreate/Finished.antt =====
-- The last statement of a change, and the row that it leaves.
use oddk.Base.{
  ◌≡◌, refl, sym, ap, ◌∙◌, subst, true, false, Option, none, some, String, List, arith, ok,
}
use oddk.Instances.{Instance, get, update_status}
use oddk.Instances.Rows.{IsKeyed}
use oddk.Instances.Status.{InstanceStatus, running}
use oddk.Recreate.Docker.{Engine, ClusterSpec, Statement, forward, mark_running, read_updated}
use oddk.Recreate.{ChangeError, on_update, finished, read_back}
use oddk.Recreate.Committed.{Runs, Settled, AreSpecs}
use oddk.Recreate.Leaves.{Leaves, stays-Leaves, write-Leaves, Leaves-map}
use oddk.Recreate.Changed.{kept, IsReady}

module _ (e : Engine) (accepted : (s : Statement) → e.refuses s ≡ false) where
  -- The last statement and the read of the row that is returned.
  abbrev Finished : Instance → Option ChangeError → Instance → Type 0
  Finished r none x = (kept x ≡ kept r) × (x.status ≡ running) × (x.container_id ≡ r.container_id)
  Finished r (some y) x = true ≡ false

  finished-Leaves :
      (name : String) (r : Instance) (rows : List Instance)
      → IsKeyed rows
      → get false name rows ≡ ok r
      → Leaves (Finished r) name rows (finished e name rows)
  unfolding update_status
  finished-Leaves name r rows keyed there =
      write-Leaves (Finished r) name (e.refuses mark_running)
        (λ q. record q { status = running; updated_at = e.now }) (λ q. refl) r rows
        (λ out.
          on_update rows out (λ after. read_back after (get (e.refuses read_updated) name after)))
        (accepted mark_running) keyed there
        λ after k s.
          subst (λ o. Leaves (Finished r) name after (read_back after o))
            (sym s ∙ ap (λ b. get b name after) (sym (accepted read_updated)))
            (stays-Leaves (Finished r) name none _ after k s (refl, refl, refl))

  module _ (inst target : Instance) where
    Finished-Settled :
        (status : InstanceStatus) (x : Instance)
        → kept x ≡ kept target
        → Runs e forward (kept target) target.image inst.container_id x.container_id
        → (z : Option ChangeError) (y : Instance) → Finished x z y
        → Settled e inst target status z y
    Finished-Settled status x same runs none y (k, st, c) =
        let back = sym (k ∙ same) in
        (
          k ∙ same,
          st,
          subst (λ id. Runs e forward y y.image inst.container_id id) (sym c)
              (subst (λ q. Runs e forward q q.image inst.container_id x.container_id) back runs),
        )
    Finished-Settled status x same runs (some z) y h = absurd (ground arith)

    -- A row of the target's shape that is finished says what its container runs.
    pub finished-Settled :
        (status : InstanceStatus) (next prev : ClusterSpec) (x : Instance)
        → AreSpecs e inst target next prev
        → target.password ≡ inst.password
        → kept x ≡ kept target
        → IsReady e forward next inst.container_id x.container_id
        → (rows : List Instance) → IsKeyed rows
        → get false inst.name rows ≡ ok x
        → Leaves (Settled e inst target status) inst.name rows (finished e inst.name rows)
    finished-Settled status next prev x specs pw same ready rows keyed there =
        let (password, parameters, current, dec, gt, gi, nx, pv) = specs in
        let runs : Runs e forward (kept target) target.image inst.container_id x.container_id = (
          password,
          parameters,
          ap e.decrypted pw ∙ dec,
          gt,
          subst (λ z. IsReady e forward z inst.container_id x.container_id) nx ready,
        ) in
        Leaves-map (Finished x) (Settled e inst target status) inst.name rows _
          (Finished-Settled status x same runs) (finished-Leaves inst.name x rows keyed there)
