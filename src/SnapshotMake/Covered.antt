-- ===== src/SnapshotMake/Covered.antt =====
-- What retention and the checklist read from the row of a snapshot that was just made.
use oddk.Base.{
  ℕ, ◌≤◌, ◌<◌, ◌≡◌, ◌≢◌, refl, sym, ap, ap₂, ◌∙◌, subst, Bool, true, false, not, Option, none, some,
  List, [], ◌∷◌, ◌++◌, ◌&&◌, String, str_eq, map, any, all, filter, if◌then◌else◌, arith,
  Option-cases, inl, inr, eq_iff, eq_refl, ok, ok-injective, guard-ok, >>=-eq-ok, Memᴰ, All, All-at,
  ltb,
}
use oddk.Newest.{newest_by, insert_by}
use oddk.Instances.{Instance}
use oddk.Instances.Rows.{IsKeyed}
use oddk.Retention.{RecordInstance, snapshot_is_complete}
use oddk.Snapshots.{Record, newest_first}
use oddk.Checklist.{newest_restorable, snapshot_coverage, entry_coverage, covered, config_only}
use oddk.SnapshotMake.Members.{Member, SnapshotInstanceEntry, assert_snapshot_members}
use oddk.SnapshotMake.Capture.{captured, reported_gap, stage_all_instances-captured}
use oddk.SnapshotMake.{
  World, SnapshotCaptureFailure, AllStaged, Deployment, MakeSnapshotResult,
  normalize_snapshot_format, make_snapshot, archive_staged, stage_all_instances, recorded_instances,
  snapshot_row, result_of, recorded, published, capture_failure_error, make_in, is_found,
}

-- The newest row comes first.
insert_by-older :
    (x r : Record) (rows : List Record)
    → x.created_at < r.created_at
    → insert_by (λ (s : Record). s.created_at) x (r ∷ rows)
      ≡ r ∷ insert_by (λ (s : Record). s.created_at) x rows
insert_by-older x r rows h = ground arith

newest_first-append :
    (rows : List Record) (r : Record)
    → All (λ s. s.created_at < r.created_at) rows
    → newest_first (rows ++ r ∷ []) ≡ r ∷ newest_first rows
unfolding newest_by
newest_first-append [] r h = refl
newest_first-append (s ∷ rows) r h =
    rw (newest_first-append rows r h.1) (insert_by-older s r (newest_first rows) h.0)

-- The coverage list of the row, by the rows of the instances.
abbrev entry_for : World → String → Instance → RecordInstance
entry_for w format i = record { name = i.name; has_data = captured w format i }

recorded_instances-captured :
    (w : World) (format : String) (entries : List SnapshotInstanceEntry) (rows : List Instance)
    → map (λ e. e.name) entries ≡ map (λ i. i.name) rows
    → map (λ e. e.has_data) entries ≡ map (captured w format) rows
    → recorded_instances entries ≡ map (entry_for w format) rows
recorded_instances-captured w format [] [] n h = refl
recorded_instances-captured w format [] (i ∷ rows) n h = cc
recorded_instances-captured w format (e ∷ entries) [] n h = cc
recorded_instances-captured w format (e ∷ entries) (i ∷ rows) n h =
    let name : e.name ≡ i.name = cc in
    let held : e.has_data ≡ captured w format i = cc in
    ap₂ (λ (x : RecordInstance) xs. x ∷ xs)
      (ap₂ (λ n b. record { name = n; has_data = b }) name held)
      (recorded_instances-captured w format entries rows (cc) (cc))

module _ (w : World) (format : String) where
  complete-captured :
      (rows : List Instance)
      → snapshot_is_complete (some (map (entry_for w format) rows)) ≡ all (captured w format) rows
  unfolding snapshot_is_complete
  complete-captured [] = refl
  complete-captured (i ∷ rows) = ap (λ b. captured w format i && b) (complete-captured rows)

  coverage-captured :
      (rows : List Instance) {i : Instance}
      → IsKeyed rows
      → Memᴰ i rows
      → entry_coverage (map (entry_for w format) rows) i.name
        ≡ (if captured w format i then covered else config_only)
  unfolding entry_coverage
  coverage-captured [] k m = elim m [ ]
  coverage-captured (j ∷ rows) k (Memᴰ.head e) =
      subst
        (λ x.
          entry_coverage (map (entry_for w format) (j ∷ rows)) x.name
          ≡ (if captured w format x then covered else config_only))
        (sym e) (rw (eq_refl j.name) refl)
  coverage-captured (j ∷ rows) {i} k (Memᴰ.tail m) =
      let other = All-at (λ s. j.name ≢ s.name) rows k.0 m in
      ground (arith, eq_iff j.name i.name, coverage-captured rows k.1 m)

abbrev filled {ℓ} : {A : Type ℓ} → List A → Bool
filled [] = false
filled (x ∷ xs) = true

filled-map {ℓ κ} :
    {A : Type ℓ} {B : Type κ} (f : A → B) (xs : List A) → filled (map f xs) ≡ filled xs
filled-map f [] = refl
filled-map f (x ∷ xs) = refl

filled-filter {ℓ} : {A : Type ℓ} (p : A → Bool) (xs : List A) → filled (filter p xs) ≡ any p xs
filled-filter p [] = refl
filled-filter p (x ∷ xs) = ground (arith, filled-filter p xs)

failure_error-filled :
    (r : MakeSnapshotResult) → capture_failure_error r ≡ filled r.capture_failures
unfolding capture_failure_error
failure_error-filled r = ground arith

failures-any :
    (p : Instance → Bool) (rows : List Instance) (failures : List SnapshotCaptureFailure)
    → map (λ f. f.instance_name) failures ≡ map (λ i. i.name) (filter p rows)
    → filled failures ≡ any p rows
failures-any p rows failures h =
    sym (filled-map (λ f. f.instance_name) failures)
    ∙ ap filled h
    ∙ filled-map (λ i. i.name) (filter p rows)
    ∙ filled-filter p rows

-- What a snapshot that was made has come through.
abbrev Made : World → String → List Instance → Deployment → MakeSnapshotResult → Deployment → Type 0
Made w format rows d result after =
    (fmt : String) × (normalize_snapshot_format format ≡ some fmt)
    × ((all : AllStaged) × (stage_all_instances w fmt (some rows) ≡ ok all)
        × (published (w.written all.0) all.0 ≡ true)
        × (result ≡ result_of w fmt all)
        × (after ≡ recorded w all.0 d))

archive_staged-made :
    (w : World) (fmt : String) (d after : Deployment) (all : AllStaged)
    (result : MakeSnapshotResult)
    → archive_staged w fmt d all ≡ ok (result, after)
    → (published (w.written all.0) all.0 ≡ true)
      × (result ≡ result_of w fmt all)
      × (after ≡ recorded w all.0 d)
unfolding archive_staged
archive_staged-made w fmt d after all result e =
    let (_, e) = guard-ok w.vacuum_fails _ _ e in
    let (_, e) = guard-ok w.migrations_fail _ _ e in
    let (_, e) = guard-ok w.manifest_fails _ _ e in
    let (checked, e) = guard-ok (not (published (w.written all.0) all.0)) _ _ e in
    let made = ok-injective e in (ground arith, sym (ap (λ x. x.0) made), sym (ap (λ x. x.1) made))

make_snapshot-Made :
    (w : World) (format : String) (rows : List Instance) (d after : Deployment)
    (result : MakeSnapshotResult)
    → make_snapshot w format (some rows) d ≡ ok (result, after)
    → Made w format rows d result after
unfolding make_snapshot
make_snapshot-Made w format rows d after result e =
    let (_, e) = guard-ok w.backup_dir_missing _ _ e in
    elim (Option-cases (normalize_snapshot_format format)) [
      | inl n ↦ let e = subst (λ o. make_in w (some rows) d o ≡ ok (result, after)) n e in cc
      | inr (fmt, n) ↦
          let e = subst (λ o. make_in w (some rows) d o ≡ ok (result, after)) n e in
          let (_, e) = guard-ok (is_found (d.disk w.archive_path)) _ _ e in
          let (_, e) = guard-ok w.staging_refused _ _ e in
          let (all, staged, e) =
            >>=-eq-ok (stage_all_instances w fmt (some rows)) (archive_staged w fmt d) e in
          let (checked, r, a) = archive_staged-made w fmt d after all result e in
          (fmt, n, (all, staged, checked, r, a))
    ]

abbrev IsCaptured : World → String → List Instance → AllStaged → Type 0
IsCaptured w format rows all =
    (map (λ e. e.name) all.0 ≡ map (λ i. i.name) rows)
    × (map (λ e. e.has_data) all.0 ≡ map (captured w format) rows)
    × (map (λ f. f.instance_name) all.1 ≡ map (λ i. i.name) (filter (reported_gap w format) rows))

staged-IsCaptured :
    (w : World) (format : String) (rows : List Instance) (all : AllStaged)
    → stage_all_instances w format (some rows) ≡ ok all
    → IsCaptured w format rows all
staged-IsCaptured w format rows all staged = elim (stage_all_instances-captured w format rows) [
  | inr (_, (x, failed)) ↦ let e = sym staged ∙ failed in cc
  | inl (_, (all', staged', names, held, failed)) ↦
      subst (IsCaptured w format rows) (ok-injective (sym staged' ∙ staged)) (names, held, failed)
]

published-members :
    (written : Option (List Member)) (entries : List SnapshotInstanceEntry)
    → published written entries ≡ true
    → (members : List Member) × (written ≡ some members)
      × (assert_snapshot_members members entries ≡ true)
published-members none entries e = cc
published-members (some members) entries e = (members, refl, e)

-- What follows for the row, the result and the archive, for the format that was asked for.
abbrev pub Reads :
    World → String → List Instance → Deployment → MakeSnapshotResult → String → Record → Type 0
Reads w format rows after result fmt newest =
    (normalize_snapshot_format format ≡ some fmt)
    × (newest_restorable after.disk (newest_first after.catalogue) ≡ some newest)
    × (snapshot_is_complete newest.instances ≡ all (captured w fmt) rows)
    × (capture_failure_error result ≡ any (reported_gap w fmt) rows)
    × ((members : List Member) × (w.written result.instances ≡ some members)
        × (assert_snapshot_members members result.instances ≡ true))

not_later : (a b : ℕ) → a ≤ b → ltb b a ≡ false
not_later a b h = ground arith

module _ (w : World) (format : String) (rows : List Instance) (d after : Deployment)
    (result : MakeSnapshotResult) (keyed : IsKeyed rows) (catalogued : w.record_refused ≡ false)
    (named : str_eq w.archive_path "" ≡ false) (newer : All (λ r. r.created_at < w.now) d.catalogue)
    (made : make_snapshot w format (some rows) d ≡ ok (result, after)) where
  -- The snapshot is the newest that can be restored.
  newest-made :
      (entries : List SnapshotInstanceEntry)
      → after ≡ recorded w entries d
      → newest_restorable after.disk (newest_first after.catalogue) ≡ some (snapshot_row w entries)
  unfolding newest_restorable
  newest-made entries e =
      rw (e, catalogued)
        (rw (newest_first-append d.catalogue (snapshot_row w entries) newer)
          (rw (named, eq_refl w.archive_path) (rw named refl)))

  covers_at :
      (fmt : String) (all : AllStaged) (i : Instance)
      → normalize_snapshot_format format ≡ some fmt
      → IsCaptured w fmt rows all
      → published (w.written all.0) all.0 ≡ true
      → result ≡ result_of w fmt all
      → after ≡ recorded w all.0 d
      → Memᴰ i rows
      → i.created_at ≤ w.now
      → Reads w format rows after result fmt (snapshot_row w all.0)
        × (snapshot_coverage (some (snapshot_row w all.0)) i.name i.created_at
            ≡ (if captured w fmt i then covered else config_only))
  unfolding snapshot_coverage
  covers_at fmt all i n (names, held, failed) checked r a m known =
      let listed = recorded_instances-captured w fmt all.0 rows names held in
      (
        (
          n,
          newest-made all.0 a,
          ap (λ es. snapshot_is_complete (some es)) listed ∙ complete-captured w fmt rows,
          ap capture_failure_error r
              ∙ failure_error-filled (result_of w fmt all)
              ∙ failures-any (reported_gap w fmt) rows all.1 failed,
          subst
              (λ (x : MakeSnapshotResult).
                (members : List Member) × (w.written x.instances ≡ some members)
                × (assert_snapshot_members members x.instances ≡ true))
              (sym r) (published-members (w.written all.0) all.0 checked),
        ),
        rw (not_later i.created_at w.now known)
            (ap (λ es. entry_coverage es i.name) listed ∙ coverage-captured w fmt rows keyed m),
      )

  -- Take a snapshot that was made and catalogued, over instances with different names, where every
  -- earlier record is older. The checked archive is the newest that can be restored. Retention takes
  -- it for complete exactly if every instance was captured; the run has a capture error exactly if
  -- there is a gap that has to be reported; and the checklist calls an instance that existed by then
  -- covered if it was captured, and config-only if not.
  pub make_snapshot-covers :
      (i : Instance)
      → Memᴰ i rows
      → i.created_at ≤ w.now
      → (fmt : String) × (newest : Record) × Reads w format rows after result fmt newest
        × (snapshot_coverage (some newest) i.name i.created_at
            ≡ (if captured w fmt i then covered else config_only))
  make_snapshot-covers i m known =
      let (fmt, n, (all, staged, checked, r, a)) =
        make_snapshot-Made w format rows d after result made in
      let (reads, coverage) =
        covers_at fmt all i n (staged-IsCaptured w fmt rows all staged) checked r a m known in
      (fmt, snapshot_row w all.0, reads, coverage)
