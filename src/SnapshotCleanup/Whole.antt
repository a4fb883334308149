-- ===== src/SnapshotCleanup/Whole.antt =====
-- What one pass of `runLocalCleanup` promises about the disk and the catalogue.
use oddk.Base.{
  ℕ, ◌≤◌, min, ◌≡◌, ◌≢◌, refl, ◌⊎◌, inl, inr, true, false, List, [], ◌∷◌, String, str_eq, arith,
  Memᴰ, Bool-cases, sym, leb, subst, ok, ◌<◌,
}
use oddk.Disk.{Disk, found}
use oddk.Retention.{new_retention_floor, days_before}
use oddk.Snapshots.{Record, local_path, remote_path, newest_first, list}
use oddk.Newest.{insert_by, newest_by}
use oddk.Newest.Order.{
  All-insert_by, All-newest_by, newest_by-NewestFirst, mem-newest_by, newest_by-mem,
  count_of-newest_by,
}
use oddk.Snapshots.Located.{IsCatalogue}
use oddk.SnapshotCleanup.{
  unreadable, not_configured, offsite_assumed, Faults, Run, cleanup_days, Offsite, configured,
  limits_at, start, local_loop, run_local_cleanup, min_retained_snapshots,
}
use oddk.SnapshotCleanup.LocalFloor.{is_present, OwnPaths, surviving, local_loop-floor}
use oddk.SnapshotCleanup.Pin.{IsPinnable, is_complete, local_loop-pin}
use oddk.SnapshotCleanup.Justified.{local_loop-IsDue}
use oddk.SnapshotCleanup.Rows.{local_loop-IsCatalogue}

-- The listing keeps the paths apart.
OwnPaths-insert_newest :
    (r : Record) (rs : List Record)
    → OwnPaths (r ∷ rs)
    → OwnPaths (insert_by (λ s. s.created_at) r rs)
OwnPaths-insert_newest r [] h = h
OwnPaths-insert_newest r (s ∷ rs) h = elim (Bool-cases (leb s.created_at r.created_at)) [
  | inl t ↦ rw t h
  | inr t ↦ rw t (
    λ e.
        All-insert_by (λ s. s.created_at) (λ q. local_path s ≢ local_path q) r rs
          ((λ q. differs e q), h.1.0 e),
    OwnPaths-insert_newest r rs ((λ e. (h.0 e).1), h.1.1),
  )
]
  where
    differs : str_eq (local_path s) "" ≡ false → local_path s ≢ local_path r
    differs e q = (h.0 (subst (λ (p : String). str_eq p "" ≡ false) q e)).0 (sym q)

OwnPaths-newest_first : (rows : List Record) → OwnPaths rows → OwnPaths (newest_first rows)
unfolding newest_by
OwnPaths-newest_first [] h = tt
OwnPaths-newest_first (r ∷ rows) h = OwnPaths-insert_newest r (newest_first rows) (
  λ e. All-newest_by (λ s. s.created_at) (λ q. local_path r ≢ local_path q) rows (h.0 e),
  OwnPaths-newest_first rows h.1,
)

pub offsite-assumed : (o : Offsite) → o ≢ not_configured → offsite_assumed o ≡ true
unfolding offsite_assumed
offsite-assumed unreadable h = refl
offsite-assumed not_configured h = absurd (h refl)
offsite-assumed configured h = refl

module _ (now days : ℕ) (offsite : Offsite) (faults : Faults) (disk : Disk)
    (rows : List Record) where
  abbrev pub final : Run
  final = local_loop (limits_at now days offsite faults) (newest_first rows) (start disk rows)

  run_local_cleanup-final :
      run_local_cleanup now (cleanup_days days) offsite false faults disk rows ≡ ok final
  unfolding run_local_cleanup list
  run_local_cleanup-final = refl

  -- If no two records name one archive, then a pass over a readable plan and catalogue returns no
  -- error, and at least min(2, n) of the n archives that were on disk are on disk afterwards,
  -- however old all of them are.
  pub run_local_cleanup-floor :
      OwnPaths rows
      → (run : Run) × (run_local_cleanup now (cleanup_days days) offsite false faults disk rows
          ≡ ok run)
        × (min min_retained_snapshots (surviving disk rows) ≤ surviving run.disk rows)
  unfolding new_retention_floor
  run_local_cleanup-floor own = (
    final,
    run_local_cleanup-final,
    omega (
      arith,
      local_loop-floor (limits_at now days offsite faults) (newest_first rows) (start disk rows)
          (OwnPaths-newest_first rows own),
      count_of-newest_by (λ s. s.created_at) (is_present disk) rows,
      count_of-newest_by (λ s. s.created_at) (is_present final.disk) rows,
    ),
  )

  -- If no two records name one archive and some archive is on disk, complete, and at most
  -- cleanup_local_days + 30 days old, then after the pass a complete archive is on disk.
  pub run_local_cleanup-pin :
      {r : Record}
      → OwnPaths rows
      → Memᴰ r rows
      → IsPinnable (limits_at now days offsite faults) disk r
      → (run : Run) × (run_local_cleanup now (cleanup_days days) offsite false faults disk rows
          ≡ ok run)
        × ((s : Record) × Memᴰ s rows × (is_complete s ≡ true) × (is_present run.disk s ≡ true))
  run_local_cleanup-pin own m h =
      let kept =
        local_loop-pin (limits_at now days offsite faults) (newest_first rows) (start disk rows)
          (newest_by-NewestFirst (λ s. s.created_at) rows) (OwnPaths-newest_first rows own) refl
          (mem-newest_by (λ s. s.created_at) rows m) h in
      (
        final,
        run_local_cleanup-final,
        (
          kept.archive,
          newest_by-mem (λ s. s.created_at) rows kept.listed,
          kept.complete,
          kept.present,
        ),
      )

  -- After a pass a file that was there is still there, or a record names it that is older than the
  -- window and, unless offsite is known not to be configured, has a remote copy.
  pub run_local_cleanup-due :
      (p : String)
      → disk p ≡ found
      → (run : Run) × (run_local_cleanup now (cleanup_days days) offsite false faults disk rows
          ≡ ok run)
        × ((run.disk p ≡ found)
            ⊎ ((r : Record) × Memᴰ r rows
                × (local_path r ≡ p)
                × (r.created_at < days_before now days)
                × (offsite ≢ not_configured → str_eq (remote_path r) "" ≡ false)))
  run_local_cleanup-due p f = (
    final,
    run_local_cleanup-final,
    elim (local_loop-IsDue (limits_at now days offsite faults) (newest_first rows) (start disk rows)
        p f) [
          | inl g ↦ inl g
          | inr (r, m, due) ↦ inr (
            r,
            newest_by-mem (λ s. s.created_at) rows m,
            due.named,
            due.aged,
            λ known. due.copied (offsite-assumed offsite known),
          )
        ],
  )

  -- A pass over a catalogue with unique ids, in which every row names a location, leaves such a
  -- catalogue, whatever the file system and the database refuse on the way.
  pub run_local_cleanup-IsCatalogue :
      IsCatalogue rows
      → (run : Run) × (run_local_cleanup now (cleanup_days days) offsite false faults disk rows
          ≡ ok run)
        × IsCatalogue run.rows
  run_local_cleanup-IsCatalogue h = (
    final,
    run_local_cleanup-final,
    local_loop-IsCatalogue (limits_at now days offsite faults) (newest_first rows) (start disk rows)
        h,
  )
