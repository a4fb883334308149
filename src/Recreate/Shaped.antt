-- ===== src/Recreate/Shaped.antt =====
-- The statements that record a new shape, once the container answers.
use oddk.Base.{
  ◌≡◌, refl, sym, ap, ◌∙◌, inl, inr, true, false, String, List, str_eq, str_eq→eq, arith,
  Bool-cases, ok,
}
use oddk.Instances.{Instance, get, update_parameter_group, update_resources}
use oddk.Instances.Rows.{IsKeyed}
use oddk.Instances.Status.{reconfiguring}
use oddk.Recreate.Docker.{Engine, ClusterSpec, Statement, forward, record_group, record_resources}
use oddk.Recreate.{on_update, finished}
use oddk.Recreate.Leaves.{Leaves, write-Leaves}
use oddk.Recreate.Changed.{kept, IsReady}
use oddk.Recreate.Committed.{Settled, AreSpecs}
use oddk.Recreate.Finished.{finished-Settled}
use oddk.Recreate.Reconfigure.{Shape, commit_shape, commit_resources, same_resources}

-- The row with another shape.
abbrev pub shaped : Instance → Shape → Instance
shaped inst t = record inst {
  parameter_group = t.group;
  cpu_cores = t.cpu_cores;
  ram_mb = t.ram_mb;
  port = t.port;
}

abbrev regrouped : Instance → String → Instance
regrouped inst g = record inst { parameter_group = g }

regrouped-shaped :
    (inst : Instance) (t : Shape)
    → same_resources t inst ≡ true
    → kept (regrouped inst t.group) ≡ kept (shaped inst t)
regrouped-shaped inst t h =
    let c : inst.cpu_cores ≡ t.cpu_cores = ground arith in
    let m : inst.ram_mb ≡ t.ram_mb = ground arith in
    let p : inst.port ≡ t.port = ground arith in
    let r = record inst { parameter_group = t.group } in
    ap (λ n. kept (record r { cpu_cores = n })) c
    ∙ ap (λ n. kept (record r { cpu_cores = t.cpu_cores; ram_mb = n })) m
    ∙ ap (λ n. kept (record r { cpu_cores = t.cpu_cores; ram_mb = t.ram_mb; port = n })) p

module _ (e : Engine) (accepted : (s : Statement) → e.refuses s ≡ false) (inst : Instance) where
  module _ (t : Shape) (next prev : ClusterSpec)
      (specs : AreSpecs e inst (shaped inst t) next prev) where
    commit_resources-Leaves :
        (x : Instance) (rows : List Instance)
        → IsKeyed rows
        → get false inst.name rows ≡ ok x
        → kept x ≡ kept (regrouped inst t.group)
        → IsReady e forward next inst.container_id x.container_id
        → Leaves
            (Settled e inst (shaped inst t) reconfiguring)
            inst.name
            rows
            (commit_resources e inst t rows)
    unfolding update_resources
    commit_resources-Leaves x rows keyed there same ready =
        let resource = λ (q : Instance). record q {
          port = t.port;
          cpu_cores = t.cpu_cores;
          ram_mb = t.ram_mb;
        } in
        elim (Bool-cases (same_resources t inst)) [
          | inl b ↦ rw b (
              finished-Settled e accepted inst (shaped inst t) reconfiguring next prev x specs refl
                (same ∙ regrouped-shaped inst t b) ready rows keyed there)
          | inr b ↦ rw b (
              write-Leaves (Settled e inst (shaped inst t) reconfiguring) inst.name
                (e.refuses record_resources)
                (λ q. record q {
                  port = t.port;
                  cpu_cores = t.cpu_cores;
                  ram_mb = t.ram_mb;
                  updated_at = e.now;
                })
                (λ q. refl) x rows (λ out. on_update rows out (finished e inst.name))
                (accepted record_resources) keyed there
                λ after k s.
                  finished-Settled e accepted inst (shaped inst t) reconfiguring next prev _ specs
                    refl (ap resource same) ready after k s)
        ]

    pub commit_shape-Leaves :
        (x : Instance) (rows : List Instance)
        → IsKeyed rows
        → get false inst.name rows ≡ ok x
        → kept x ≡ kept inst
        → IsReady e forward next inst.container_id x.container_id
        → Leaves
            (Settled e inst (shaped inst t) reconfiguring)
            inst.name
            rows
            (commit_shape e inst t rows)
    unfolding update_parameter_group
    commit_shape-Leaves x rows keyed there same ready =
        let regroup = λ (g : String) (q : Instance). record q { parameter_group = g } in
        elim (Bool-cases (str_eq t.group inst.parameter_group)) [
          | inl b ↦ rw b (
              commit_resources-Leaves x rows keyed there
                (same
                  ∙ ap (λ g. kept (regrouped inst g))
                      (sym (str_eq→eq t.group inst.parameter_group b)))
                ready)
          | inr b ↦ rw b (
              write-Leaves (Settled e inst (shaped inst t) reconfiguring) inst.name
                (e.refuses record_group)
                (λ q. record q { parameter_group = t.group; updated_at = e.now }) (λ q. refl) x rows
                (λ out. on_update rows out (commit_resources e inst t)) (accepted record_group)
                keyed there
                λ after k s. commit_resources-Leaves _ after k s (ap (regroup t.group) same) ready)
        ]
