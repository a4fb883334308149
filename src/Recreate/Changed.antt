-- ===== src/Recreate/Changed.antt =====
-- What applyClusterChange leaves in the row of an instance, where no statement is refused.
use oddk.Base.{
  ◌≡◌, refl, sym, subst, ◌⊎◌, inl, inr, true, false, ◌||◌, Option, none, some, String, List, [],
  ◌∷◌, str_eq, arith, Bool-cases, Result, ok, err,
}
use oddk.Instances.{Instance, marked, get, update_status, update_container_id}
use oddk.Instances.Rows.{IsKeyed}
use oddk.Instances.Status.{running, error, creating}
use oddk.Recreate.Docker.{
  Engine, ClusterSpec, Attempt, Statement, RecreateError, preflight, failed, forward, rollback,
  recreate_container, recreate_start_ready, started, pin_image, pinned_to, container_name,
  not_found, unreadable, image, ImageAnswer, mark_broken, mark_unrecorded, record_orphan,
  record_restored, mark_rolled_back, record_created,
}
use oddk.Recreate.Leaves.{Leaves, stays-Leaves, write-Leaves}
use oddk.Recreate.{
  ChangeError, invalid, rolled_back, broken, unrecorded, apply_cluster_change, after_forward,
  after_rollback, after_pin, orphan, record_orphan_id, on_update, on_restored,
}

-- The row without its status, its container and the time of its last write.
abbrev pub kept : Instance → Instance
kept r = record r { status = creating; container_id = ""; updated_at = 0 }

-- The container was made from the spec, in place of `old`, and PostgreSQL answers.
abbrev pub IsReady : Engine → Attempt → ClusterSpec → String → String → Type 0
IsReady e a spec old id =
    (recreate_container e a spec old ≡ ok id)
    × (e.start_fails id ≡ false)
    × (e.ready_fails id ≡ false)

started-ready :
    (e : Engine) (out : Result RecreateError String) (id : String)
    → started e out ≡ (id, none)
    → (out ≡ ok id) × (e.start_fails id ≡ false) × (e.ready_fails id ≡ false)
started-ready e (err x) id h = ground arith
started-ready e (ok i) id h = elim (Bool-cases (e.start_fails i || e.ready_fails i)) [
  | inl b ↦ ground arith
  | inr b ↦ ground arith
]

abbrev pub IsPinned : ClusterSpec → Option ClusterSpec → Type 0
IsPinned prev p = (p ≡ none) ⊎ ((i : String) × (p ≡ some (record prev { image = i })))

pinned_to-cases :
    (e : Engine) (answer : ImageAnswer) (prev : ClusterSpec) (rest : Option ClusterSpec)
    → IsPinned prev rest
    → IsPinned prev (pinned_to e answer prev rest)
pinned_to-cases e not_found prev rest h = h
pinned_to-cases e unreadable prev rest h = inl refl
pinned_to-cases e (image i) prev rest h = elim (Bool-cases (e.has_previous_image i)) [
  | inl b ↦ inr (i, rw b refl)
  | inr b ↦ inl (rw b refl)
]

-- The spec for the rollback differs from the old one in its image only.
pin_image-cases :
    (e : Engine) (prev : ClusterSpec) (refs : List String) → IsPinned prev (pin_image e refs prev)
unfolding pin_image
pin_image-cases e prev [] = inr (prev.image, refl)
pin_image-cases e prev (ref ∷ refs) = elim (Bool-cases (str_eq ref "")) [
  | inl b ↦ rw b (pin_image-cases e prev refs)
  | inr b ↦ rw b (pinned_to-cases e (e.image_of ref) prev _ (pin_image-cases e prev refs))
]

module _ (e : Engine) (next prev : ClusterSpec) (old : String) (r : Instance) where
  -- What the change leaves, by its error, in the row that was `r`.
  abbrev pub Changed : Option ChangeError → Instance → Type 0
  Changed none x =
      (kept x ≡ kept r) × (x.status ≡ r.status) × IsReady e forward next old x.container_id
  Changed (some rolled_back) x =
      (kept x ≡ kept r)
      × (x.status ≡ running)
      × ((i : String) × (id : String) × IsReady e rollback (record prev { image = i }) id
            x.container_id)
  Changed (some broken) x = (kept x ≡ kept r) × (x.status ≡ error)
  Changed (some invalid) x = x ≡ r
  Changed (some _) x = true ≡ false

  module _ (accepted : (s : Statement) → e.refuses s ≡ false) where
    orphan-Leaves :
        (id : String) (x : Instance) (rows : List Instance)
        → IsKeyed rows
        → get false r.name rows ≡ ok x
        → Changed (some broken) x
        → Leaves Changed r.name rows (some broken, record_orphan_id e r.name id rows)
    unfolding update_container_id
    orphan-Leaves id x rows keyed there p = elim (Bool-cases (str_eq id "")) [
      | inl b ↦ rw b (stays-Leaves Changed r.name (some broken) x rows keyed there p)
      | inr b ↦ rw b (
          write-Leaves Changed r.name (e.refuses record_orphan)
            (λ q. record q { container_id = id; updated_at = e.now }) (λ q. refl) x rows
            (λ out. (some broken, marked rows out)) (accepted record_orphan) keyed there
            λ after k s. stays-Leaves Changed r.name (some broken) _ after k s p)
    ]

    after_rollback-Leaves :
        (i id : String) (out : String × Option RecreateError) (rows : List Instance)
        → recreate_start_ready e rollback (record prev { image = i }) id ≡ out
        → IsKeyed rows
        → get false r.name rows ≡ ok r
        → Leaves Changed r.name rows (after_rollback e r.name id out rows)
    unfolding recreate_start_ready update_status update_container_id
    after_rollback-Leaves i id (rb, some x) rows made keyed there =
        write-Leaves Changed r.name (e.refuses mark_broken)
          (λ q. record q { status = error; updated_at = e.now }) (λ q. refl) r rows
          (λ out. (some broken, record_orphan_id e r.name (orphan rb id) (marked rows out)))
          (accepted mark_broken) keyed there
          λ after k s. orphan-Leaves (orphan rb id) _ after k s (refl, refl)
    after_rollback-Leaves i id (rb, none) rows made keyed there =
        let (m, fs, fr) =
          started-ready e (recreate_container e rollback (record prev { image = i }) id) rb made in
        write-Leaves Changed r.name (e.refuses record_restored)
          (λ q. record q { container_id = rb; updated_at = e.now }) (λ q. refl) r rows
          (λ out.
            on_restored rows out
              (
                some unrecorded,
                marked rows (update_status (e.refuses mark_unrecorded) e.now r.name error rows),
              )
              (λ after. (
                some rolled_back,
                marked after
                    (update_status (e.refuses mark_rolled_back) e.now r.name running after),
              )))
          (accepted record_restored) keyed there
          λ after k s.
            write-Leaves Changed r.name (e.refuses mark_rolled_back)
              (λ q. record q { status = running; updated_at = e.now }) (λ q. refl) _ after
              (λ out. (some rolled_back, marked after out)) (accepted mark_rolled_back) k s
              λ last k' s'.
                stays-Leaves Changed r.name (some rolled_back) _ last k' s'
                  (refl, refl, (i, id, (m, fs, fr)))

    after_forward-Leaves :
        (i : String) (out : String × Option RecreateError) (rows : List Instance)
        → recreate_start_ready e forward next old ≡ out
        → IsKeyed rows
        → get false r.name rows ≡ ok r
        → Leaves Changed r.name rows (after_forward e r.name (record prev { image = i }) out rows)
    unfolding recreate_start_ready update_container_id
    after_forward-Leaves i (id, some preflight) rows made keyed there =
        stays-Leaves Changed r.name (some invalid) r rows keyed there refl
    after_forward-Leaves i (id, some failed) rows made keyed there =
        after_rollback-Leaves i id _ rows refl keyed there
    after_forward-Leaves i (id, none) rows made keyed there =
        let (m, fs, fr) = started-ready e (recreate_container e forward next old) id made in
        write-Leaves Changed r.name (e.refuses record_created)
          (λ q. record q { container_id = id; updated_at = e.now }) (λ q. refl) r rows
          (λ out. on_update rows out (λ after. (none, after))) (accepted record_created) keyed there
          λ after k s. stays-Leaves Changed r.name none _ after k s (refl, refl, (m, fs, fr))

    after_pin-Leaves :
        (p : Option ClusterSpec) (rows : List Instance)
        → next.name ≡ r.name
        → IsPinned prev p
        → IsKeyed rows
        → get false r.name rows ≡ ok r
        → Leaves Changed r.name rows (after_pin e next p old rows)
    after_pin-Leaves p rows same (inl none_left) keyed there =
        subst (λ q. Leaves Changed r.name rows (after_pin e next q old rows)) (sym none_left)
          (stays-Leaves Changed r.name (some invalid) r rows keyed there refl)
    after_pin-Leaves p rows same (inr (i, pinned)) keyed there =
        subst (λ q. Leaves Changed r.name rows (after_pin e next q old rows)) (sym pinned)
          (subst
            (λ n. Leaves Changed r.name rows (
              after_forward e n (record prev { image = i })
                (recreate_start_ready e forward next old) rows))
            (sym same) (after_forward-Leaves i _ rows refl keyed there))

    pub apply_cluster_change-Leaves :
        (rows : List Instance)
        → next.name ≡ r.name
        → IsKeyed rows
        → get false r.name rows ≡ ok r
        → Leaves Changed r.name rows (apply_cluster_change e next prev old rows)
    unfolding apply_cluster_change
    apply_cluster_change-Leaves rows same keyed there =
        after_pin-Leaves (pin_image e (old ∷ container_name prev.name ∷ []) prev) rows same
          (pin_image-cases e prev (old ∷ container_name prev.name ∷ [])) keyed there
