-- ===== src/Backups/Dangling.antt =====
-- What `ReconcileLocalLocations` leaves, and what the next sweep drops.
use oddk.Base.{
  snoc_assoc, ℕ, suc, ◌+◌, ◌≡◌, ◌≢◌, refl, sym, ◌∙◌, subst, Bool, true, false, not, ◌||◌, none,
  some, List, [], ◌∷◌, ◌++◌, map, all, count_of, String, ◌==◌, eq→==, if◌then◌else◌, ok, arith, All,
  All-append, Distinct,
}
use oddk.Disk.{Disk}
use oddk.Backups.{BackupRecord, valid, update_row}
use oddk.Backups.Copies.{located, update_where, update_local_location, clear_local_location}
use oddk.Backups.Repoint.{
  Fate, kept, dangling, cleared, repointed, fate, Repair, repair, repair_loop,
}

-- The row that a decision leaves.
abbrev pub moved : Fate → BackupRecord → BackupRecord
moved kept b = b
moved dangling b = b
moved cleared b = record b { local_location = none }
moved (repointed c) b = record b { local_location = some c }

abbrev pub dangles : Fate → Bool
dangles dangling = true
dangles _ = false

abbrev ApartFrom : ℕ → List BackupRecord → Type 0
ApartFrom k = All (λ b. k ≢ b.id)

module _ (f : BackupRecord → BackupRecord) where
  apart-update_row :
      (k : ℕ) (rows : List BackupRecord) → ApartFrom k rows → update_row k f rows ≡ rows
  apart-update_row k [] h = refl
  apart-update_row k (b ∷ rows) h = ground (arith, apart-update_row k rows h.1)

  split-update_row :
      (pre : List BackupRecord) (b : BackupRecord) (rest : List BackupRecord)
      → ApartFrom b.id pre
      → ApartFrom b.id rest
      → update_row b.id f (pre ++ b ∷ rest) ≡ pre ++ f b ∷ rest
  split-update_row [] b rest hp hr = rw (eq→== {a = b.id} refl, apart-update_row b.id rest hr) refl
  split-update_row (x ∷ pre) b rest hp hr = ground (arith, split-update_row pre b rest hp.1 hr)

  allowed : ℕ → List BackupRecord → Bool
  allowed k rows = all (λ b. not (b.id == k) || located (f b)) rows

  apart-allowed : (k : ℕ) (rows : List BackupRecord) → ApartFrom k rows → allowed k rows ≡ true
  unfolding allowed
  apart-allowed k [] h = refl
  apart-allowed k (b ∷ rows) h = ground (arith, apart-allowed k rows h.1)

  split-allowed :
      (pre : List BackupRecord) (b : BackupRecord) (rest : List BackupRecord)
      → ApartFrom b.id pre
      → ApartFrom b.id rest
      → located (f b) ≡ true
      → allowed b.id (pre ++ b ∷ rest) ≡ true
  unfolding allowed
  split-allowed [] b rest hp hr l = rw (l, apart-allowed b.id rest hr) (ground arith)
  split-allowed (x ∷ pre) b rest hp hr l = ground (arith, split-allowed pre b rest hp.1 hr l)

  -- An update of one row of a table with unique ids.
  update_where-at :
      (fails : ℕ → Bool) (pre : List BackupRecord) (b : BackupRecord) (rest : List BackupRecord)
      → fails b.id ≡ false
      → ApartFrom b.id pre
      → ApartFrom b.id rest
      → located (f b) ≡ true
      → update_where fails b.id f (pre ++ b ∷ rest) ≡ ok (pre ++ f b ∷ rest)
  unfolding update_where allowed
  update_where-at fails pre b rest accepted hp hr l =
      rw (accepted, split-allowed pre b rest hp hr l, split-update_row pre b rest hp hr) refl

fate-cleared :
    (dir : String) (disk : Disk) (b : BackupRecord)
    → fate dir disk b ≡ cleared
    → valid b.remote_location ≡ true
unfolding fate
fate-cleared dir disk b h = ground arith

-- The whole step, for any decision that the row allows.
repair-at :
    (fails : ℕ → Bool) (pre : List BackupRecord) (b : BackupRecord) (rest : List BackupRecord)
    (run : Repair) (f : Fate)
    → fails b.id ≡ false
    → ApartFrom b.id pre
    → ApartFrom b.id rest
    → run.rows ≡ pre ++ b ∷ rest
    → (f ≡ cleared → valid b.remote_location ≡ true)
    → (after : Repair) × (repair fails b f run ≡ (none, after))
      × (after.rows ≡ pre ++ moved f b ∷ rest)
      × (after.dangling_after ≡ run.dangling_after + (if dangles f then 1 else 0))
unfolding update_local_location clear_local_location
repair-at fails pre b rest run kept accepted hp hr e l = (run, refl, e, omega arith)
repair-at fails pre b rest run dangling accepted hp hr e l =
    (record run { dangling_after = suc run.dangling_after }, refl, e, omega arith)
repair-at fails pre b rest run cleared accepted hp hr e l =
    rw
      (
        e,
        update_where-at (λ b. record b { local_location = none }) fails pre b rest accepted hp hr
            (l refl),
      )
      (_, refl, refl, omega arith)
repair-at fails pre b rest run (repointed c) accepted hp hr e l =
    rw
      (
        e,
        update_where-at (λ b. record b { local_location = some c }) fails pre b rest accepted hp hr
            refl,
      )
      (_, refl, refl, omega arith)

pub moved-id : (f : Fate) (b : BackupRecord) → (moved f b).id ≡ b.id
moved-id kept b = refl
moved-id dangling b = refl
moved-id cleared b = refl
moved-id (repointed c) b = refl

extend :
    (x : BackupRecord) (pre rest : List BackupRecord)
    → ApartFrom x.id rest
    → All (λ (q : BackupRecord). ApartFrom q.id pre) rest
    → All (λ (q : BackupRecord). ApartFrom q.id (pre ++ x ∷ [])) rest
extend x pre [] hr hp = tt
extend x pre (q ∷ rest) hr hp = (
  All-append (λ (s : BackupRecord). q.id ≢ s.id) pre (x ∷ []) hp.0 ((λ e. hr.0 (sym e)), tt),
  extend x pre rest hr.1 hp.1,
)

module _ (fails : ℕ → Bool) (accepts : (k : ℕ) → fails k ≡ false) (dir : String) (disk : Disk) where
  abbrev pub settled : BackupRecord → BackupRecord
  settled b = moved (fate dir disk b) b

  -- The loop over the rest of the table decides each row on its own.
  pub repair_loop-settled :
      (pre rs : List BackupRecord) (run : Repair)
      → Distinct (λ (b : BackupRecord). b.id) rs
      → All (λ (q : BackupRecord). ApartFrom q.id pre) rs
      → run.rows ≡ pre ++ rs
      → (after : Repair) × (repair_loop fails dir disk rs run ≡ (none, after))
        × (after.rows ≡ pre ++ map settled rs)
        × (after.dangling_after ≡ run.dangling_after + count_of (λ b. dangles (fate dir disk b)) rs)
  unfolding repair_loop
  repair_loop-settled pre [] run unique apart e = (run, refl, e, omega arith)
  repair_loop-settled pre (b ∷ rest) run unique apart e =
      let (mid, stepped, mid_rows, mid_count) =
        repair-at fails pre b rest run (fate dir disk b) (accepts b.id) apart.0 unique.0 e
          (fate-cleared dir disk b) in
      let x = settled b in
      let (after, looped, rows, count) =
        repair_loop-settled (pre ++ x ∷ []) rest mid unique.1
          (extend x pre rest
            (subst (λ k. ApartFrom k rest) (sym (moved-id (fate dir disk b) b)) unique.0) apart.1)
          (mid_rows ∙ sym (snoc_assoc pre x rest)) in
      (
        after,
        rw stepped looped,
        rows ∙ snoc_assoc pre x (map settled rest),
        omega (arith, count, mid_count),
      )
