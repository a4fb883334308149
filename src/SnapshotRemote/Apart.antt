-- ===== src/SnapshotRemote/Apart.antt =====
-- The turns of the offsite cleanup keep to their own objects.
use oddk.Base.{
  ◌<◌, ◌≡◌, refl, ◌∙◌, ◌⊎◌, inl, inr, some, List, [], ◌∷◌, String, str_eq, Bool-cases, All,
  Pairwise, Memᴰ,
}
use oddk.Bucket.{our_key}
use oddk.Bucket.Keys.{OtherKey, OtherKey-sym, remote_archive_present-cong}
use oddk.Retention.Loop.{Apart, AllApart, loop}
use oddk.Snapshots.{Record, remote_path}
use oddk.SnapshotRemote.{Limits, Run, remote_step, remote_loop}
use oddk.SnapshotRemote.Turn.{in_bucket, turns, remote_step-objects}

module _ (limits : Limits) where
  in_bucket-step :
      (r q : Record) (run : Run)
      → OtherKey limits.remote (remote_path r) (remote_path q)
      → in_bucket limits (remote_step limits r run).objects q ≡ in_bucket limits run.objects q
  in_bucket-step r q run h = elim (Bool-cases (str_eq (remote_path q) "")) [
    | inl e ↦ rw e refl
    | inr e ↦ rw e (
        remote_archive_present-cong limits.remote (remote_step limits r run).objects run.objects
          (remote_path q) (λ k ours. untouched k ours))
  ]
    where
      untouched :
          (k : String)
          → our_key limits.remote (remote_path q) ≡ some k
          → (remote_step limits r run).objects k ≡ run.objects k
      untouched k ours = elim (remote_step-objects limits r run k) [
        | inl same ↦ same
        | inr (named, _) ↦ absurd (h k named ours)
      ]

  -- No two records name one object of the bucket.
  abbrev pub OwnKeys : List Record → Type 0
  OwnKeys = Pairwise (λ r q. OtherKey limits.remote (remote_path r) (remote_path q))

  turns_commute :
      (r : Record) (rs : List Record)
      → All (λ q. OtherKey limits.remote (remote_path r) (remote_path q)) rs
      → All (Apart (turns limits) r) rs
  turns_commute r [] h = tt
  turns_commute r (q ∷ rs) h = (
    (
      λ s. in_bucket-step r q s h.0,
      λ s. in_bucket-step q r s (OtherKey-sym limits.remote (remote_path r) (remote_path q) h.0),
    ),
    turns_commute r rs h.1,
  )

  pub OwnKeys-AllApart : (rs : List Record) → OwnKeys rs → AllApart (turns limits) rs
  OwnKeys-AllApart [] h = tt
  OwnKeys-AllApart (r ∷ rs) h = (turns_commute r rs h.0, OwnKeys-AllApart rs h.1)

  pub remote_loop-loop :
      (rs : List Record) (run : Run) → remote_loop limits rs run ≡ loop (turns limits) rs run
  unfolding remote_loop
  remote_loop-loop [] run = refl
  remote_loop-loop (r ∷ rs) run = remote_loop-loop rs (remote_step limits r run)

  -- Over the whole loop: an object goes only by a record of the list that is past the window.
  pub remote_loop-objects :
      (rs : List Record) (run : Run) (k : String)
      → ((remote_loop limits rs run).objects k ≡ run.objects k)
        ⊎ ((r : Record) × Memᴰ r rs
            × (our_key limits.remote (remote_path r) ≡ some k)
            × (r.created_at < limits.cutoff))
  unfolding remote_loop
  remote_loop-objects [] run k = inl refl
  remote_loop-objects (r ∷ rs) run k = elim (remote_loop-objects rs (remote_step limits r run) k) [
    | inr (q, m, named, aged) ↦ inr (q, Memᴰ.tail m, named, aged)
    | inl later ↦ elim (remote_step-objects limits r run k) [
      | inl same ↦ inl (later ∙ same)
      | inr (named, aged) ↦ inr (r, Memᴰ.head refl, named, aged)
    ]
  ]
