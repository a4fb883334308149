-- ===== src/Recreate/Settled.antt =====
-- What a reconfiguration leaves in the row of the instance.
use oddk.Base.{
  ◌≡◌, refl, sym, ap, ◌∙◌, subst, ◌⊎◌, inl, inr, Bool, true, false, not, ◌&&◌, ◌||◌, Option, none,
  some, String, List, [], ◌∷◌, ℕ, ◌==◌, str_eq, str_eq→eq, arith, Bool-cases, if◌then◌else◌, Result,
  ok, err, ltb,
}
use oddk.Instances.{Instance, InstanceError, get, is_port_in_use}
use oddk.Instances.Rows.{IsKeyed}
use oddk.Instances.Status.{error, reconfiguring, same_status}
use oddk.Recreate.Docker.{Engine, Parameter, Statement, spec_from_instance, read_row, read_port}
use oddk.Recreate.{ChangeError, invalid, conflict, no_group, no_password}
use oddk.Recreate.Leaves.{Leaves, stays-Leaves}
use oddk.Recreate.Committed.{Settled, AreSpecs, put_on-Leaves}
use oddk.Recreate.Shaped.{shaped, commit_shape-Leaves}
use oddk.Recreate.Reconfigure.{
  Params, Shape, merged, resolve_target, check_port, commit_shape, next_spec, reconfigure,
  reconfigure_with, reconfigure_to, reconfigure_row, same_as,
}

get-name :
    (name : String) (rows : List Instance) (r : Instance)
    → get false name rows ≡ ok r
    → r.name ≡ name
unfolding get
get-name name [] r h = ground arith
get-name name (x ∷ rows) r h = elim (Bool-cases (str_eq x.name name)) [
  | inl b ↦ let same : x ≡ r = ground arith in ap (λ z. z.name) (sym same) ∙ str_eq→eq x.name name b
  | inr b ↦ get-name name rows r (ground arith)
]

module _ (e : Engine) (accepted : (s : Statement) → e.refuses s ≡ false) (inst : Instance) where
  module _ (t : Shape) where
    reconfigure_with-Leaves :
        (parameters current : Option (List Parameter)) (password : Option String)
        (rows : List Instance)
        → e.group t.group ≡ parameters
        → e.group inst.parameter_group ≡ current
        → e.decrypted inst.password ≡ password
        → IsKeyed rows
        → get false inst.name rows ≡ ok inst
        → Leaves
            (Settled e inst (shaped inst t) reconfiguring)
            inst.name
            rows
            (reconfigure_with e inst t parameters current password rows)
    reconfigure_with-Leaves none current password rows g c d keyed there =
        stays-Leaves (Settled e inst (shaped inst t) reconfiguring) inst.name (some invalid) inst
          rows keyed there (refl, refl, inl refl)
    reconfigure_with-Leaves (some ps) none password rows g c d keyed there =
        stays-Leaves (Settled e inst (shaped inst t) reconfiguring) inst.name (some no_group) inst
          rows keyed there refl
    reconfigure_with-Leaves (some ps) (some cs) none rows g c d keyed there =
        stays-Leaves (Settled e inst (shaped inst t) reconfiguring) inst.name (some no_password)
          inst rows keyed there refl
    reconfigure_with-Leaves (some ps) (some cs) (some pw) rows g c d keyed there =
        let prev = spec_from_instance inst pw cs in
        let specs : AreSpecs e inst (shaped inst t) (next_spec prev t ps) prev =
          (pw, ps, cs, d, g, c, refl, refl) in
        put_on-Leaves e accepted inst (shaped inst t) reconfiguring (next_spec prev t ps) prev
          (commit_shape e inst t) specs refl rows keyed there
          (λ x after k s same ready.
            commit_shape-Leaves e accepted inst t (next_spec prev t ps) prev specs x after k s same
              ready)

  -- The checks let the merged shape through, or refuse the request.
  abbrev IsTarget : Shape → Result ChangeError Shape → Type 0
  IsTarget t out = (out ≡ ok t) ⊎ ((out ≡ err invalid) ⊎ (out ≡ err conflict))

  if-IsTarget :
      (t : Shape) (b : Bool) (x y : Result ChangeError Shape)
      → IsTarget t x
      → IsTarget t y
      → IsTarget t (if b then x else y)
  if-IsTarget t true x y h k = h
  if-IsTarget t false x y h k = k

  check_port-IsTarget :
      (t : Shape) (port : Option ℕ) (rows : List Instance)
      → IsTarget t (check_port e t inst port rows)
  unfolding is_port_in_use
  check_port-IsTarget t none rows = inl refl
  check_port-IsTarget t (some port) rows =
      if-IsTarget t (ltb port 1 || ltb 65535 port) _ _ (inr (inl refl)) (
        if-IsTarget t (port == inst.port) _ _ (inl refl)
          (rw (accepted read_port) (if-IsTarget t _ _ _ (inr (inr refl)) (inl refl))))

  resolve_target-IsTarget :
      (p : Params) (rows : List Instance) → IsTarget (merged p inst) (resolve_target e p inst rows)
  unfolding resolve_target
  resolve_target-IsTarget p rows = if-IsTarget (merged p inst) _ _ _ (inr (inl refl)) (
      if-IsTarget (merged p inst) _ _ _ (inr (inl refl))
        (check_port-IsTarget (merged p inst) p.port rows))

  reconfigure_to-Leaves :
      (t : Shape) (out : Result ChangeError Shape) (rows : List Instance)
      → IsTarget t out
      → IsKeyed rows
      → get false inst.name rows ≡ ok inst
      → Leaves
          (Settled e inst (shaped inst t) reconfiguring)
          inst.name
          rows
          (reconfigure_to e inst rows out)
  reconfigure_to-Leaves t out rows h keyed there =
      let refused = λ (x : ChangeError).
        stays-Leaves (Settled e inst (shaped inst t) reconfiguring) inst.name (some x) inst rows
          keyed there in
      let goal = λ (o : Result ChangeError Shape).
        Leaves (Settled e inst (shaped inst t) reconfiguring) inst.name rows
          (reconfigure_to e inst rows o) in
      elim h [
        | inr (inl i) ↦ subst goal (sym i) (refused invalid (refl, refl, inl refl))
        | inr (inr c) ↦ subst goal (sym c) (refused conflict refl)
        | inl i ↦
            subst goal (sym i)
              (elim (Bool-cases (same_as t inst && not (same_status inst.status error))) [
                | inl b ↦ rw b (refused invalid (refl, refl, inl refl))
                | inr b ↦ rw b (reconfigure_with-Leaves t _ _ _ rows refl refl refl keyed there)
              ])
      ]

-- Suppose that no statement is refused, and that the instance is in a table that is keyed by name.
-- Only its row differs afterwards. Without an error it has the shape asked for, it is `running`,
-- and its container was made from what the row says and answers. After a rollback it has the old
-- shape, it is `running`, and its container was made from the old row with some image and answers.
-- Where the rollback fails too, it has the old shape and is `error`. Where the request or the
-- change is refused as invalid, it has the old shape and the old container, and its status is the
-- old one, or still `reconfiguring` if that was `error`. After any other error it is the old row.
pub reconfigure-settles :
    (e : Engine) (p : Params) (inst : Instance) (rows : List Instance)
    → ((s : Statement) → e.refuses s ≡ false)
    → IsKeyed rows
    → get false p.name rows ≡ ok inst
    → Leaves
        (Settled e inst (shaped inst (merged p inst)) reconfiguring)
        p.name
        rows
        (reconfigure e p rows)
unfolding reconfigure
reconfigure-settles e p inst rows accepted keyed there =
    let named = get-name p.name rows inst there in
    let goal = λ (n : String) (o : Result InstanceError Instance).
      Leaves (Settled e inst (shaped inst (merged p inst)) reconfiguring) n rows
        (reconfigure_row e p rows o) in
    subst (λ o. goal p.name o) (sym there ∙ ap (λ b. get b p.name rows) (sym (accepted read_row)))
      (subst (λ n. goal n (ok inst)) named
        (reconfigure_to-Leaves e accepted inst (merged p inst) _ rows
          (resolve_target-IsTarget e accepted inst p rows) keyed
          (ap (λ n. get false n rows) named ∙ there)))
