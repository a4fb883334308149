-- ===== src/SnapshotApply/Loop.antt =====
-- What an apply leaves in the table of instances.
use oddk.Base.{
  ◌≡◌, ◌≢◌, refl, sym, ap, ◌∙◌, subst, ◌⊎◌, inl, inr, Option, none, some, String, false, List, [],
  ◌∷◌, ◌++◌, All, All-of, Distinct, ok, ne→str_eq,
}
use oddk.Instances.{Instance, get}
use oddk.Instances.Rows.{IsKeyed}
use oddk.SnapshotMake.Members.{SnapshotInstanceEntry}
use oddk.SnapshotApply.{
  Target, InstanceMeta, Outcome, ApplyError, entry_of, with_data, apply_one, apply_instances, go_on,
}
use oddk.Instances.Sets.{Sets, Sets-self}
use oddk.SnapshotApply.Settled.{Ends, Leaves, apply_one-Leaves}

All-suffix {ℓ κ} :
    {A : Type ℓ} (P : A → Type κ) (xs : List A) (y : A) (ys : List A)
    → All P (xs ++ y ∷ ys)
    → All P ys
All-suffix P [] y ys h = h.1
All-suffix P (x ∷ xs) y ys h = All-suffix P xs y ys h.1

module _ (t : Target) (entries : List SnapshotInstanceEntry) where
  -- The row of the instance says how its turn ended.
  abbrev pub HasEnded : Option ApplyError → List Instance → InstanceMeta → Type 0
  HasEnded e rows m =
      (r : Instance) × (get false m.name rows ≡ ok r)
      × Ends t m.name (with_data (entry_of entries m.name)) e r

  abbrev pub HasRow : List Instance → InstanceMeta → Type 0
  HasRow rows m = (r : Instance) × (get false m.name rows ≡ ok r)

  abbrev pub Untouched : List Instance → List Instance → InstanceMeta → Type 0
  Untouched rows after m = get false m.name after ≡ get false m.name rows

  -- The loop ended without an error and every instance is settled, or it stopped at one instance:
  -- those before it are settled, its own row says so, and the rows of those after it are as before.
  abbrev pub Ended : List InstanceMeta → List Instance → Outcome → Type 0
  Ended metas rows out =
      ((out.0 ≡ none) × All (HasEnded none out.1) metas)
      ⊎ ((x : ApplyError) × (before : List InstanceMeta) × (m : InstanceMeta) × (rest : List
            InstanceMeta)
          × (out.0 ≡ some x)
          × (metas ≡ before ++ m ∷ rest)
          × All (HasEnded none out.1) before
          × HasEnded (some x) out.1 m
          × All (Untouched rows out.1) rest)

  -- Rows of other names are as they were.
  abbrev pub KeepsOthers : List InstanceMeta → List Instance → List Instance → Type 0
  KeepsOthers metas rows after =
      (j : String) → All (λ m. m.name ≢ j) metas → get false j after ≡ get false j rows

  -- A name that the written row does not have.
  Sets-other :
      (m : InstanceMeta) (r : Instance) (rows after : List Instance) (j : String)
      → Sets m.name r rows after
      → m.name ≢ j
      → get false j after ≡ get false j rows
  Sets-other m r rows after j sets other = sets.1 j ∙ rw (ne→str_eq m.name j other) refl

  Untouched-past :
      (m : InstanceMeta) (r : Instance) (rows mid after : List Instance) (rest : List InstanceMeta)
      → Sets m.name r rows mid
      → All (λ k. m.name ≢ k.name) rest
      → All (Untouched mid after) rest
      → All (Untouched rows after) rest
  Untouched-past m r rows mid after [] sets fresh h = tt
  Untouched-past m r rows mid after (k ∷ rest) sets fresh h = (
    h.0 ∙ Sets-other m r rows mid k.name sets fresh.0,
    Untouched-past m r rows mid after rest sets fresh.1 h.1,
  )

  HasRow-past :
      (m : InstanceMeta) (r : Instance) (rows mid : List Instance) (rest : List InstanceMeta)
      → Sets m.name r rows mid
      → All (λ k. m.name ≢ k.name) rest
      → All (HasRow rows) rest
      → All (HasRow mid) rest
  HasRow-past m r rows mid [] sets fresh h = tt
  HasRow-past m r rows mid (k ∷ rest) sets fresh h = (
    (h.0.0, Sets-other m r rows mid k.name sets fresh.0 ∙ h.0.1),
    HasRow-past m r rows mid rest sets fresh.1 h.1,
  )

  Untouched-all :
      (m : InstanceMeta) (r : Instance) (rows after : List Instance) (rest : List InstanceMeta)
      → Sets m.name r rows after
      → All (λ k. m.name ≢ k.name) rest
      → All (Untouched rows after) rest
  Untouched-all m r rows after rest sets fresh =
      Untouched-past m r rows after after rest sets fresh
        (All-of (Untouched after after) rest (λ k n. refl))

  fresh_sym :
      (m : InstanceMeta) (rest : List InstanceMeta)
      → All (λ k. m.name ≢ k.name) rest
      → All (λ k. k.name ≢ m.name) rest
  fresh_sym m [] h = tt
  fresh_sym m (k ∷ rest) h = ((λ e. h.0 (sym e)), fresh_sym m rest h.1)

  -- One turn, and then the rest.
  turn :
      (m : InstanceMeta) (rest : List InstanceMeta) (rows : List Instance) (out : Outcome)
      → Leaves (Ends t m.name (with_data (entry_of entries m.name))) m.name rows out
      → All (λ k. m.name ≢ k.name) rest
      → ((mid : List Instance)
          → out ≡ (none, mid)
          → Ended rest mid (apply_instances t entries rest mid)
            × KeepsOthers rest mid (apply_instances t entries rest mid).1)
      → Ended (m ∷ rest) rows (go_on out (λ mid. apply_instances t entries rest mid))
        × KeepsOthers (m ∷ rest) rows (go_on out (λ mid. apply_instances t entries rest mid)).1
  turn m rest rows (some x, after) (r, sets, ends) fresh next = (
    inr (
      x,
      [],
      m,
      rest,
      refl,
      refl,
      tt,
      (r, Sets-self m.name r rows after sets, ends),
      Untouched-all m r rows after rest sets fresh,
    ),
    λ j h. Sets-other m r rows after j sets h.0,
  )
  turn m rest rows (none, mid) (r, sets, ends) fresh next =
      let out = apply_instances t entries rest mid in
      let (ended, keeps) = next mid refl in
      let settled : HasEnded none out.1 m =
        (r, keeps m.name (fresh_sym m rest fresh) ∙ Sets-self m.name r rows mid sets, ends) in
      (
        elim ended [
          | inl (e, all) ↦ inl (e, (settled, all))
          | inr (x, before, k, later, e, split, done, stopped, untouched) ↦ inr (
            x,
            m ∷ before,
            k,
            later,
            e,
            ap (λ ks. m ∷ ks) split,
            (settled, done),
            stopped,
            Untouched-past m r rows mid out.1 later sets
                (All-suffix (λ q. m.name ≢ q.name) before k later
                  (subst (All (λ q. m.name ≢ q.name)) split fresh))
                untouched,
          )
        ],
        λ j h. keeps j h.1 ∙ Sets-other m r rows mid j sets h.0,
      )

  -- Over a table keyed by name with a row for each instance of the snapshot, each named once: where
  -- the loop ends without an error, every instance with data has the container that was created for
  -- it and the status of its capture, and every other has no container and the status error. Where
  -- it stops, that holds of those before, the row it stopped at says error unless a statement about
  -- it was refused, and those after are as they were. Rows of other names never change.
  pub apply_instances-settles :
      (metas : List InstanceMeta) (rows : List Instance)
      → IsKeyed rows
      → Distinct (λ (m : InstanceMeta). m.name) metas
      → All (HasRow rows) metas
      → Ended metas rows (apply_instances t entries metas rows)
        × KeepsOthers metas rows (apply_instances t entries metas rows).1
  unfolding apply_instances
  apply_instances-settles [] rows keyed distinct there = (inl (refl, tt), λ j _. refl)
  apply_instances-settles (m ∷ rest) rows keyed distinct there =
      let one =
        apply_one-Leaves t m (with_data (entry_of entries m.name)) there.0.0 rows keyed there.0.1 in
      turn m rest rows (apply_one t m (with_data (entry_of entries m.name)) rows) one distinct.0
        λ mid e.
          let sets : Sets m.name one.0 rows mid =
            subst (λ (out : Outcome). Sets m.name one.0 rows out.1) e one.1 in
          apply_instances-settles rest mid sets.0 distinct.1
            (HasRow-past m one.0 rows mid rest sets distinct.0 there.1)
