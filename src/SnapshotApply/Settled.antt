-- ===== src/SnapshotApply/Settled.antt =====
-- What an apply leaves in the row of one instance.
use oddk.Base.{
  ◌≡◌, refl, sym, ap, ◌∙◌, subst, ◌⊎◌, inl, inr, Bool, true, false, not, ◌&&◌, ◌||◌, Option, none,
  some, String, List, arith, Bool-cases, if◌then◌else◌, Result, ok, err,
}
use oddk.Instances.{
  Instance, InstanceError, marked, database, get, update_row, update_status, update_container_id,
}
use oddk.Instances.Rows.{IsKeyed, update_row-get, update_row-refused}
use oddk.Instances.Sets.{Sets, Sets-refl, Sets-self, Sets-trans}
use oddk.Instances.Status.{error, restoring}
use oddk.SnapshotMake.Members.{SnapshotInstanceEntry}
use oddk.SnapshotApply.{
  Target, InstanceMeta, Outcome, ApplyError, on_update, is_physical, final_status, cluster_fails,
  finish_cluster, rebuild_instance_cluster, deferred, rebuild_marked, rebuild_row,
  rebuild_instance_from_snapshot, mark_instance_unbuilt, apply_one, read_row, mark_restoring,
  mark_error, record_container, mark_final, clear_container,
}

-- A result of statements and calls about one row: a table in which only that row differs, and what
-- `P` says of the error and the row.
abbrev pub Leaves :
    (Option ApplyError → Instance → Type 0) → String → List Instance → Outcome → Type 0
Leaves P name rows out = (r : Instance) × Sets name r rows out.1 × P out.0 r

-- The rule for a statement: it is refused, or the rest goes on with the written row.
on_update-Leaves :
    (P : Option ApplyError → Instance → Type 0) (refused : Bool) (name : String)
    (f : Instance → Instance) (keeps : (x : Instance) → (f x).name ≡ x.name) (r : Instance)
    (rows : List Instance) (rest : List Instance → Outcome)
    → IsKeyed rows
    → get false name rows ≡ ok r
    → (refused ≡ true → P (some ApplyError.database) r)
    → ((after : List Instance) → Sets name (f r) rows after → Leaves P name after (rest after))
    → Leaves P name rows (on_update rows (update_row refused name f rows) rest)
on_update-Leaves P true name f keeps r rows rest keyed there stop go =
    subst (λ out. Leaves P name rows (on_update rows out rest))
      (sym (update_row-refused name f keeps rows)) (r, Sets-refl name r rows keyed there, stop refl)
on_update-Leaves P false name f keeps r rows rest keyed there stop go =
    let (after, e, k, s) = update_row-get name f keeps rows keyed there in
    let (x, sets, p) = go after (k, s) in
    subst (λ out. Leaves P name rows (on_update rows out rest)) (sym e)
      (x, Sets-trans name (f r) x rows after (rest after).1 (k, s) sets, p)

module _ (t : Target) (name : String) where
  -- Some statement about the row was refused that would have marked it.
  abbrev pub refused_about : Bool
  refused_about =
      t.refuses read_row name
      || t.refuses mark_restoring name
      || t.refuses mark_error name
      || t.refuses clear_container name

  -- What the row says afterwards: without an error, `error` and no container where the snapshot has no
  -- data, and otherwise the status of the rebuilt cluster and its container; with an error, `error`,
  -- unless a statement was refused.
  abbrev pub Ends : Option SnapshotInstanceEntry → Option ApplyError → Instance → Type 0
  Ends e (some x) r = (refused_about ≡ true) ⊎ (r.status ≡ error)
  Ends none none r = (r.status ≡ error) × (r.container_id ≡ "")
  Ends (some e) none r = (r.status ≡ final_status e) × (r.container_id ≡ t.container name)

  mark_instance_unbuilt-Leaves :
      (r : Instance) (rows : List Instance)
      → IsKeyed rows
      → get false name rows ≡ ok r
      → Leaves (Ends none) name rows (mark_instance_unbuilt t name rows)
  unfolding mark_instance_unbuilt update_status update_container_id
  mark_instance_unbuilt-Leaves r rows keyed there =
      on_update-Leaves (Ends none) (t.refuses clear_container name) name _ (λ x. refl) r rows _
        keyed there (λ h. inl (ground arith))
        λ cleared s.
          on_update-Leaves (Ends none) (t.refuses mark_error name) name _ (λ x. refl) _ cleared _
            s.0 (Sets-self name _ rows cleared s) (λ h. inl (ground arith))
            λ after u.
              (_, Sets-refl name _ after u.0 (Sets-self name _ cleared after u), (refl, refl))

  -- Before the deferred statement nothing is said of an error.
  abbrev Rebuilt : SnapshotInstanceEntry → Option ApplyError → Instance → Type 0
  Rebuilt e none r = Ends (some e) none r
  Rebuilt e (some x) r = Unit

  stopped-Leaves :
      (P : Option ApplyError → Instance → Type 0) (x : ApplyError) (r : Instance)
      (rows : List Instance)
      → IsKeyed rows
      → get false name rows ≡ ok r
      → P (some x) r
      → Leaves P name rows (some x, rows)
  stopped-Leaves P x r rows keyed there p = (r, Sets-refl name r rows keyed there, p)

  if-Leaves :
      (P : Option ApplyError → Instance → Type 0) (rows : List Instance) (b : Bool) (x y : Outcome)
      → Leaves P name rows x
      → Leaves P name rows y
      → Leaves P name rows (if b then x else y)
  if-Leaves P rows true x y h k = h
  if-Leaves P rows false x y h k = k

  finish_cluster-Leaves :
      (e : SnapshotInstanceEntry) (r : Instance) (rows : List Instance)
      → IsKeyed rows
      → get false name rows ≡ ok r
      → r.container_id ≡ t.container name
      → Leaves (Rebuilt e) name rows (finish_cluster t e name rows)
  unfolding update_status
  finish_cluster-Leaves e r rows keyed there contained =
      if-Leaves (Rebuilt e) rows (cluster_fails t e name) _ _
        (stopped-Leaves (Rebuilt e) ApplyError.docker r rows keyed there tt)
        (on_update-Leaves (Rebuilt e) (t.refuses mark_final name) name _ (λ x. refl) r rows _ keyed
          there (λ h. tt)
          λ after s.
            (_, Sets-refl name _ after s.0 (Sets-self name _ rows after s), (refl, contained)))

  rebuild_instance_cluster-Leaves :
      (e : SnapshotInstanceEntry) (r : Instance) (rows : List Instance)
      → IsKeyed rows
      → get false name rows ≡ ok r
      → Leaves (Rebuilt e) name rows (rebuild_instance_cluster t e name rows)
  unfolding rebuild_instance_cluster update_container_id
  rebuild_instance_cluster-Leaves e r rows keyed there =
      let stop = λ (x : ApplyError). stopped-Leaves (Rebuilt e) x r rows keyed there tt in
      if-Leaves (Rebuilt e) rows (not (is_physical e) && not (t.has_logical_inputs name)) _ _
        (stop ApplyError.no_inputs)
        (if-Leaves (Rebuilt e) rows (t.create_fails name) _ _ (stop ApplyError.docker) (
          on_update-Leaves (Rebuilt e) (t.refuses record_container name) name _ (λ x. refl) r rows
            (finish_cluster t e name) keyed there (λ h. tt)
            λ after s. finish_cluster-Leaves e _ after s.0 (Sets-self name _ rows after s) refl))

  marked-table :
      (rows : List Instance) (out : Result InstanceError (List Instance))
      → (on_update rows out (λ after. (none, after))).1 ≡ marked rows out
  marked-table rows (err x) = refl
  marked-table rows (ok after) = refl

  deferred-Leaves :
      (e : SnapshotInstanceEntry) (rows : List Instance) (out : Outcome)
      → Leaves (Rebuilt e) name rows out
      → Leaves (Ends (some e)) name rows (deferred t name out)
  unfolding update_status
  deferred-Leaves e rows (none, after) h = h
  deferred-Leaves e rows (some x, after) (r, s, _) =
      let (r', u, p) =
        on_update-Leaves (λ _ q. (refused_about ≡ true) ⊎ (q.status ≡ error))
          (t.refuses mark_error name) name (λ q. record q { status = error; updated_at = t.now })
          (λ q. refl) r after (λ a. (none, a)) s.0 (Sets-self name r rows after s)
          (λ h. inl (ground arith))
          λ a v. (_, Sets-refl name _ a v.0 (Sets-self name _ after a v), inr refl) in
      (
        r',
        Sets-trans name r r' rows after _ s (
            subst (Sets name r' after)
              (marked-table after
                (update_status (t.refuses mark_error name) t.now name error after))
              u),
        p,
      )

  rebuild_marked-Leaves :
      (meta : InstanceMeta) (e : SnapshotInstanceEntry) (row r : Instance) (rows : List Instance)
      → meta.name ≡ name
      → IsKeyed rows
      → get false name rows ≡ ok r
      → Leaves (Rebuilt e) name rows (rebuild_marked t meta e row rows)
  rebuild_marked-Leaves meta e row r rows same keyed there =
      let stop = λ (x : ApplyError). stopped-Leaves (Rebuilt e) x r rows keyed there tt in
      if-Leaves (Rebuilt e) rows (not (t.decrypts row.password)) _ _ (stop ApplyError.no_password) (
        if-Leaves (Rebuilt e) rows
          (not meta.has_definition && not (t.has_group meta.parameter_group)) _ _
          (stop ApplyError.no_parameter_group)
          (subst (λ n. Leaves (Rebuilt e) name rows (rebuild_instance_cluster t e n rows))
            (sym same) (rebuild_instance_cluster-Leaves e r rows keyed there)))

get-refused : (name : String) (rows : List Instance) → get true name rows ≡ err database
unfolding get
get-refused name rows = refl

module _ (t : Target) (meta : InstanceMeta) where
  rebuild_row-Leaves :
      (e : SnapshotInstanceEntry) (r : Instance) (rows : List Instance)
      → IsKeyed rows
      → get false meta.name rows ≡ ok r
      → Leaves (Ends t meta.name (some e)) meta.name rows (rebuild_row t meta e rows (ok r))
  unfolding update_status
  rebuild_row-Leaves e r rows keyed there =
      on_update-Leaves (Ends t meta.name (some e)) (t.refuses mark_restoring meta.name) meta.name
        (λ q. record q { status = restoring; updated_at = t.now }) (λ q. refl) r rows _ keyed there
        (λ h. inl (ground arith))
        λ after s. deferred-Leaves t meta.name e after (rebuild_marked t meta e r after) (
          rebuild_marked-Leaves t meta.name meta e r _ after refl s.0
            (Sets-self meta.name _ rows after s))

  rebuild-Leaves :
      (e : SnapshotInstanceEntry) (r : Instance) (rows : List Instance)
      → IsKeyed rows
      → get false meta.name rows ≡ ok r
      → Leaves
          (Ends t meta.name (some e))
          meta.name
          rows
          (rebuild_instance_from_snapshot t meta e rows)
  unfolding rebuild_instance_from_snapshot
  rebuild-Leaves e r rows keyed there =
      let P = Ends t meta.name (some e) in
      let goal = λ (o : Result InstanceError Instance).
        Leaves P meta.name rows (rebuild_row t meta e rows o) in
      elim (Bool-cases (t.refuses read_row meta.name)) [
        | inl h ↦
            subst goal (sym (get-refused meta.name rows) ∙ ap (λ b. get b meta.name rows) (sym h)) (
              stopped-Leaves t meta.name P ApplyError.instance_row r rows keyed there
                (inl (ground arith)))
        | inr h ↦
            subst goal (sym there ∙ ap (λ b. get b meta.name rows) (sym h))
              (rebuild_row-Leaves e r rows keyed there)
      ]

  -- One pass of the loop.
  pub apply_one-Leaves :
      (e : Option SnapshotInstanceEntry) (r : Instance) (rows : List Instance)
      → IsKeyed rows
      → get false meta.name rows ≡ ok r
      → Leaves (Ends t meta.name e) meta.name rows (apply_one t meta e rows)
  apply_one-Leaves none r rows keyed there =
      mark_instance_unbuilt-Leaves t meta.name r rows keyed there
  apply_one-Leaves (some e) r rows keyed there = rebuild-Leaves e r rows keyed there
