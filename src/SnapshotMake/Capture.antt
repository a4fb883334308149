-- ===== src/SnapshotMake/Capture.antt =====
-- Which instances a snapshot holds, and which gaps it reports.
use mathlib.Core.List.{append-nil, append_assoc, map-append}
use oddk.Base.{
  ◌≡◌, refl, sym, ◌⊎◌, Bool, true, false, not, ◌&&◌, ◌||◌, Option, none, some, List, [], ◌∷◌, ◌++◌,
  String, str_eq, map, any, filter, if◌then◌else◌, arith, Bool-cases, inl, inr, eq_iff, ok, err,
}
use oddk.Instances.{Instance}
use oddk.SnapshotMake.Members.{snapshot_format_physical}
use oddk.SnapshotMake.{
  World, Staged, AllStaged, MakeError, decide_capture, stage_instance, stage_from,
  stage_all_instances, Decision, staged_by, writes_metadata, staging,
}

-- What the state of the container and the calls of a capture promise; the stored status has no part
-- in it.
abbrev captured_in : World → String → Instance → Option String → Bool
captured_in w format i none = false
captured_in w format i (some actual) =
    if str_eq actual "running"
    then w.decrypts i.password
      && not (
          if str_eq format snapshot_format_physical
          then w.base_backup_fails i.name
          else w.dump_fails i.name)
    else str_eq format snapshot_format_physical
      && str_eq actual "stopped"
      && not (w.cold_copy_fails i.name)

-- The instance's data is captured.
abbrev pub captured : World → String → Instance → Bool
captured w format i =
    not (str_eq i.container_id "") && captured_in w format i (w.container_status i.container_id)

abbrev expected_in : String → Option String → Bool
expected_in format none = false
expected_in format (some actual) =
    not (str_eq format snapshot_format_physical)
    && not (str_eq actual "running")
    && not (str_eq actual "not found")

-- There is nothing to capture: the instance has no container, or it has one that is not running and
-- the format is logical.
abbrev pub expected_gap : World → String → Instance → Bool
expected_gap w format i =
    str_eq i.container_id "" || expected_in format (w.container_status i.container_id)

-- A gap that has to be reported.
abbrev pub reported_gap : World → String → Instance → Bool
reported_gap w format i = not (captured w format i) && not (expected_gap w format i)

abbrev aborts_in : World → String → Instance → Option String → Bool
aborts_in w format i none = w.metadata_fails i.name
aborts_in w format i (some actual) =
    w.metadata_fails i.name
    && not (not (str_eq format snapshot_format_physical) && str_eq actual "running")

-- The staging directory of the instance, or its instance.json, cannot be written. A logical dump
-- writes its own.
abbrev pub aborts : World → String → Instance → Bool
aborts w format i =
    w.mkdir_fails i.name
    || (if str_eq i.container_id ""
        then w.metadata_fails i.name
        else aborts_in w format i (w.container_status i.container_id))

-- A staged instance, as the description has it.
abbrev pub IsStaged : World → String → Instance → Staged → Type 0
IsStaged w format i s =
    (s.0.name ≡ i.name)
    × (s.0.has_data ≡ captured w format i)
    × (s.0.format ≡ format)
    × (map (λ f. f.instance_name) s.1 ≡ (if reported_gap w format i then i.name ∷ [] else []))

abbrev decided : String → Instance → Option String → Decision
decided format i actual = decide_capture format i.container_id actual

state_cases :
    (s : String)
    → (s ≡ "running")
      ⊎ (s ≡ "stopped")
      ⊎ (s ≡ "not found")
      ⊎ ((str_eq s "running" ≡ false)
          × (str_eq s "stopped" ≡ false)
          × (str_eq s "not found" ≡ false))
state_cases s = ground (arith, eq_iff s "running", eq_iff s "stopped", eq_iff s "not found")

-- The two halves of the body, for any state of the container.
module _ (w : World) (format : String) (i : Instance) where
  staged_by-described :
      (actual : Option String)
      → let s = staged_by w format i (decided format i actual).action (decided format i actual) in
        (s.0.name ≡ i.name)
        × (s.0.has_data ≡ (not (str_eq i.container_id "") && captured_in w format i actual))
        × (s.0.format ≡ format)
        × (map (λ f. f.instance_name) s.1 ≡ (
            if not (not (str_eq i.container_id "") && captured_in w format i actual)
              && not (str_eq i.container_id "" || expected_in format actual)
            then i.name ∷ []
            else []))
  unfolding decide_capture
  staged_by-described none = ground arith
  staged_by-described (some actual) = elim (Bool-cases (str_eq i.container_id "")) [
    | inl c ↦ rw c (ground arith)
    | inr c ↦ elim (Bool-cases (str_eq format snapshot_format_physical)) [
      | inl f ↦ elim (state_cases actual) [
        | inl e ↦ rw (e, c, f) (ground arith)
        | inr (inl e) ↦ rw (e, c, f) (ground arith)
        | inr (inr (inl e)) ↦ rw (e, c, f) (ground arith)
        | inr (inr (inr (r, q, n))) ↦ rw (c, f, r, q, n) (ground arith)
      ]
      | inr f ↦ elim (state_cases actual) [
        | inl e ↦ rw (e, c, f) (ground arith)
        | inr (inl e) ↦ rw (e, c, f) (ground arith)
        | inr (inr (inl e)) ↦ rw (e, c, f) (ground arith)
        | inr (inr (inr (r, q, n))) ↦ rw (c, f, r, n) (ground arith)
      ]
    ]
  ]

  aborts-described :
      (actual : Option String)
      → (writes_metadata (decided format i actual).action && w.metadata_fails i.name) ≡ (
          if str_eq i.container_id "" then w.metadata_fails i.name else aborts_in w format i actual)
  unfolding decide_capture
  aborts-described none = ground arith
  aborts-described (some actual) = elim (Bool-cases (str_eq i.container_id "")) [
    | inl c ↦ rw c (ground arith)
    | inr c ↦ elim (Bool-cases (str_eq format snapshot_format_physical)) [
      | inl f ↦ elim (state_cases actual) [
        | inl e ↦ rw (e, c, f) (ground arith)
        | inr (inl e) ↦ rw (e, c, f) (ground arith)
        | inr (inr (inl e)) ↦ rw (e, c, f) (ground arith)
        | inr (inr (inr (r, q, n))) ↦ rw (c, f, r, q, n) (ground arith)
      ]
      | inr f ↦ elim (state_cases actual) [
        | inl e ↦ rw (e, c, f) (ground arith)
        | inr (inl e) ↦ rw (e, c, f) (ground arith)
        | inr (inr (inl e)) ↦ rw (e, c, f) (ground arith)
        | inr (inr (inr (r, q, n))) ↦ rw (c, f, r, n) (ground arith)
      ]
    ]
  ]

  stage_instance-IsStaged :
      aborts w format i ≡ false
      → (s : Staged) × (stage_instance w format i ≡ ok s) × IsStaged w format i s
  unfolding stage_instance
  stage_instance-IsStaged h =
      let actual = w.container_status i.container_id in
      (
        staged_by w format i (decided format i actual).action (decided format i actual),
        ground (arith, aborts-described actual),
        staged_by-described actual,
      )

  stage_instance-aborts :
      aborts w format i ≡ true → (e : MakeError) × (stage_instance w format i ≡ err e)
  unfolding stage_instance
  stage_instance-aborts h =
      (staging, ground (arith, aborts-described (w.container_status i.container_id)))

stage_from-append :
    (w : World) (format : String) (rows : List Instance) (so_far : AllStaged)
    → any (aborts w format) rows ≡ false
    → (all : AllStaged) × (stage_from w format rows so_far ≡ ok all)
      × (map (λ e. e.name) all.0 ≡ map (λ e. e.name) so_far.0 ++ map (λ i. i.name) rows)
      × (map (λ e. e.has_data) all.0
          ≡ map (λ e. e.has_data) so_far.0 ++ map (captured w format) rows)
      × (map (λ f. f.instance_name) all.1
          ≡ map (λ f. f.instance_name) so_far.1
            ++ map (λ i. i.name) (filter (reported_gap w format) rows))
unfolding stage_from
stage_from-append w format [] so_far h =
    (so_far, refl, sym (append-nil _), sym (append-nil _), sym (append-nil _))
stage_from-append w format (i ∷ rest) so_far h =
    let (s, e, (name, held, fmt, failed)) = stage_instance-IsStaged w format i (ground arith) in
    let (all, run, names, datas, faileds) =
      stage_from-append w format rest (so_far.0 ++ s.0 ∷ [], so_far.1 ++ s.1) (ground arith) in
    (
      all,
      rw e run,
      simp (names, map-append, append_assoc, name),
      simp (datas, map-append, append_assoc, held),
      elim (Bool-cases (reported_gap w format i)) [
        | inl g ↦ rw g (simp (faileds, map-append, append_assoc, rw g at failed))
        | inr g ↦ rw g (simp (faileds, map-append, append-nil, rw g at failed))
      ],
    )

stage_from-aborts :
    (w : World) (format : String) (rows : List Instance) (so_far : AllStaged)
    → any (aborts w format) rows ≡ true
    → (e : MakeError) × (stage_from w format rows so_far ≡ err e)
unfolding stage_from
stage_from-aborts w format [] so_far h = absurd (ground arith)
stage_from-aborts w format (i ∷ rest) so_far h = elim (Bool-cases (aborts w format i)) [
  | inl a ↦ let (e, r) = stage_instance-aborts w format i a in (e, rw r refl)
  | inr a ↦
      let (s, e, _) = stage_instance-IsStaged w format i a in
      let (x, run) =
        stage_from-aborts w format rest (so_far.0 ++ s.0 ∷ [], so_far.1 ++ s.1) (rw a at h) in
      (x, rw e run)
]

module _ (w : World) (format : String) (rows : List Instance) where
  -- Unless a staging directory or an instance.json cannot be written, staging succeeds: it makes one
  -- entry for each row, in order; an entry has data exactly if the state of the container and the
  -- calls of the capture promise it, whatever the stored status says; and the instances that are
  -- reported as failures are those without data that had something to capture. Otherwise staging
  -- fails.
  pub stage_all_instances-captured :
      ((any (aborts w format) rows ≡ false)
        × ((all : AllStaged) × (stage_all_instances w format (some rows) ≡ ok all)
            × (map (λ e. e.name) all.0 ≡ map (λ i. i.name) rows)
            × (map (λ e. e.has_data) all.0 ≡ map (captured w format) rows)
            × (map (λ f. f.instance_name) all.1
                ≡ map (λ i. i.name) (filter (reported_gap w format) rows))))
      ⊎ ((any (aborts w format) rows ≡ true)
          × ((e : MakeError) × (stage_all_instances w format (some rows) ≡ err e)))
  unfolding stage_all_instances
  stage_all_instances-captured = elim (Bool-cases (any (aborts w format) rows)) [
    | inl a ↦ inr (a, stage_from-aborts w format rows ([], []) a)
    | inr a ↦ inl (a, stage_from-append w format rows ([], []) a)
  ]
