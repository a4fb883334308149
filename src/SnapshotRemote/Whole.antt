-- ===== src/SnapshotRemote/Whole.antt =====
-- What one pass of `runRemoteCleanup` promises about the bucket.
use oddk.Base.{
  ℕ, ◌≤◌, ◌<◌, min, ◌≡◌, refl, ap, ◌⊎◌, inl, inr, Bool, false, List, String, some, arith, Memᴰ, ok,
  count_of,
}
use oddk.Bucket.{Objects, Remote, our_key}
use oddk.Bucket.Keys.{OtherKey, OtherKey-sym}
use oddk.Retention.{new_retention_floor, days_before}
use oddk.Retention.Loop.{loop, loop-floor}
use oddk.Snapshots.{Record, remote_path, newest_first, list}
use oddk.Newest.Order.{newest_by-mem, count_of-newest_by, Pairwise-newest_by}
use oddk.SnapshotCleanup.{min_retained_snapshots, cleanup_days}
use oddk.SnapshotRemote.{Run, Limits, client, start, limits_at, remote_loop, run_remote_cleanup}
use oddk.SnapshotRemote.Turn.{in_bucket, turns, turns-FillsFloor}
use oddk.SnapshotRemote.Apart.{OwnKeys, OwnKeys-AllApart, remote_loop-loop, remote_loop-objects}

module _ (now days : ℕ) (remote : Remote) (df cf : ℕ → Bool) (objects : Objects)
    (rows : List Record) where
  abbrev pub limits : Limits
  limits = limits_at now days remote df cf

  -- How many of the catalogued copies the bucket does not deny.
  abbrev pub in_bucket_count : Objects → ℕ
  in_bucket_count o = count_of (in_bucket limits o) rows

  abbrev final : Run
  final = remote_loop limits (newest_first rows) (start objects rows)

  run_remote_cleanup-final :
      run_remote_cleanup now (client remote) (cleanup_days days) false df cf objects rows ≡ ok final
  unfolding run_remote_cleanup list
  run_remote_cleanup-final = refl

  floor_holds :
      OwnKeys limits rows
      → min min_retained_snapshots (in_bucket_count objects) ≤ in_bucket_count final.objects
  unfolding new_retention_floor
  floor_holds own =
      let sorted =
        Pairwise-newest_by (λ s. s.created_at)
          (λ r q. OtherKey remote (remote_path r) (remote_path q))
          (λ r q h. OtherKey-sym remote (remote_path r) (remote_path q) h) rows own in
      omega (
        arith,
        loop-floor (turns limits) (turns-FillsFloor limits) (newest_first rows) (start objects rows)
            (OwnKeys-AllApart limits (newest_first rows) sorted),
        ap (λ (s : Run). in_bucket_count s.objects)
            (remote_loop-loop limits (newest_first rows) (start objects rows)),
        count_of-newest_by (λ s. s.created_at) (in_bucket limits objects) rows,
        count_of-newest_by (λ s. s.created_at)
            (in_bucket limits
              (loop (turns limits) (newest_first rows) (start objects rows)).objects)
            rows,
      )

  -- If no two records name one object of the bucket, then a pass with readable settings, plan and
  -- catalogue returns no error, and of the n catalogued copies that the bucket did not deny before
  -- it, at least min(2, n) are such copies afterwards, whatever requests fail on the way.
  pub run_remote_cleanup-floor :
      OwnKeys limits rows
      → (run : Run) × (run_remote_cleanup now
            (client remote)
            (cleanup_days days)
            false
            df
            cf
            objects
            rows
          ≡ ok run)
        × (min min_retained_snapshots (in_bucket_count objects) ≤ in_bucket_count run.objects)
  run_remote_cleanup-floor own = (final, run_remote_cleanup-final, floor_holds own)

  -- A pass with readable settings, plan and catalogue returns no error, and an object of the bucket
  -- is as it was, or a record leads to it that is older than the window.
  pub run_remote_cleanup-due :
      (key : String)
      → (run : Run) × (run_remote_cleanup now
            (client remote)
            (cleanup_days days)
            false
            df
            cf
            objects
            rows
          ≡ ok run)
        × ((run.objects key ≡ objects key)
            ⊎ ((r : Record) × Memᴰ r rows
                × (our_key remote (remote_path r) ≡ some key)
                × (r.created_at < days_before now days)))
  run_remote_cleanup-due key = (
    final,
    run_remote_cleanup-final,
    elim (remote_loop-objects limits (newest_first rows) (start objects rows) key) [
      | inl same ↦ inl same
      | inr (r, m, named, aged) ↦ inr (r, newest_by-mem (λ s. s.created_at) rows m, named, aged)
    ],
  )
