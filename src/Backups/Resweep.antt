-- ===== src/Backups/Resweep.antt =====
-- After `snapshot apply`: the sweep that follows `ReconcileLocalLocations` drops no row that was not
-- reported as dangling.
use Prim.Native.String
use text.Mathlib.TextLemmas.{cons-append}
use oddk.Base.{
  ℕ, ◌+◌, ◌≤◌, ◌≡◌, refl, sym, ap, subst, inl, inr, true, false, not, ◌&&◌, Option, none, some,
  List, [], ◌∷◌, map, filter, length, length-map, Distinct-map, length-filter-not, count_of, String,
  str_eq, if◌then◌else◌, ok, arith, Bool-cases, Option-cases, All-of, Distinct, str_eq→eq,
}
use oddk.Disk.{Disk, is_abs}
use oddk.Backups.{
  BackupRecord, Checked, Host, Faults, exists, valid, validate_backup_file, is_orphan, newest_first,
  list_all_backups,
}
use oddk.Backups.Sweep.{lost, refreshed}
use oddk.Backups.Listing.{swept, answer, list_all_backups_lem}
use oddk.Backups.Repoint.{
  Fate, fate, fate_at, found_at, join, base_name, kept, dangling, cleared, repointed, candidate,
  unset, Repair, fresh_repair, reconcile_local_locations,
}
use oddk.Backups.Dangling.{moved-id, moved, dangles, repair_loop-settled}

is_abs-append : (a b : String) → is_abs a ≡ true → is_abs (String.◌++◌ a b) ≡ true
is_abs-append String.[] b h = ground arith
is_abs-append (String.◌∷◌ c a) b h = rw cons-append h

is_abs-join : (dir name : String) → is_abs dir ≡ true → is_abs (join dir name) ≡ true
unfolding join
is_abs-join dir name h = elim (Bool-cases (str_eq name "/")) [
  | inl e ↦ rw e h
  | inr e ↦ rw e (is_abs-append dir _ h)
]

module _ (faults : Faults) (host : Host) (dir : String) (disk : Disk) where
  -- A row whose absolute path is there is no orphan.
  found-lost :
      (b : BackupRecord) (location : String)
      → b.local_location ≡ some location
      → is_abs location ≡ true
      → exists (disk location) ≡ true
      → lost faults host disk b ≡ false
  unfolding validate_backup_file is_orphan
  found-lost b location e a h = rw (e, a, h) (ground arith)

  remote-lost :
      (b : BackupRecord) → valid b.remote_location ≡ true → lost faults host disk b ≡ false
  unfolding validate_backup_file is_orphan
  remote-lost b h = elim (Option-cases b.local_location) [
    | inl e ↦ rw (e, h) (ground arith)
    | inr (location, e) ↦ rw (e, h) (ground arith)
  ]

  unset-valid : (o : Option String) → unset o ≡ false → valid o ≡ true
  unset-valid none h = ground arith
  unset-valid (some s) h = refl

  Kept : BackupRecord → Fate → Type 0
  Kept b f = dangles f ≡ false → lost faults host disk (moved f b) ≡ false

  no_copy_here-Kept :
      (b : BackupRecord) → Kept b (if unset b.remote_location then dangling else kept)
  unfolding Kept
  no_copy_here-Kept b = elim (Bool-cases (unset b.remote_location)) [
    | inl e ↦ rw e (λ h. absurd (ground arith))
    | inr e ↦ rw e (λ h. remote-lost b (unset-valid b.remote_location e))
  ]

  stale-Kept : (b : BackupRecord) → Kept b (if unset b.remote_location then dangling else cleared)
  unfolding Kept
  stale-Kept b = elim (Bool-cases (unset b.remote_location)) [
    | inl e ↦ rw e (λ h. absurd (ground arith))
    | inr e ↦ rw e (λ h. remote-lost (moved cleared b) (unset-valid b.remote_location e))
  ]

  found-Kept :
      (b : BackupRecord) (location c : String)
      → b.local_location ≡ some location
      → is_abs c ≡ true
      → exists (disk c) ≡ true
      → Kept b (found_at location c)
  unfolding Kept
  found-Kept b location c e a x = elim (Bool-cases (str_eq c location)) [
    | inl s ↦
        let same = str_eq→eq c location s in
        rw s (λ h. found-lost b location e (rw (sym same) a) (rw (sym same) x))
    | inr s ↦ rw s (λ h. found-lost (moved (repointed c) b) c refl a x)
  ]

  -- A row that is not reported is kept by the next sweep.
  settled-lost : (b : BackupRecord) → is_abs dir ≡ true → Kept b (fate dir disk b)
  unfolding fate
  settled-lost b a = elim (Option-cases b.local_location) [
    | inl e ↦ subst (λ l. Kept b (fate_at dir disk b l)) (sym e) (no_copy_here-Kept b)
    | inr (location, e) ↦
        subst (λ l. Kept b (fate_at dir disk b l)) (sym e)
          (elim (Bool-cases (str_eq location "")) [
            | inl n ↦ rw n (no_copy_here-Kept b)
            | inr n ↦ elim (Bool-cases (exists (disk (candidate dir location)))) [
              | inl x ↦
                  rw (n, x)
                    (found-Kept b location (candidate dir location) e
                      (is_abs-join dir (base_name location) a) x)
              | inr x ↦ rw (n, x) (stale-Kept b)
            ]
          ])
  ]

  -- The rows that the sweep drops are among the reported ones.
  lost-settled :
      (rows : List BackupRecord)
      → is_abs dir ≡ true
      → count_of (lost faults host disk) (map (λ b. moved (fate dir disk b) b) rows)
        ≤ count_of (λ b. dangles (fate dir disk b)) rows
  unfolding Kept
  lost-settled [] a = omega arith
  lost-settled (b ∷ rows) a = ground (arith, lost-settled rows a, settled-lost b a)

  -- Suppose ids are unique, the backup directory is absolute and the database accepts the
  -- statements. Then the repair after `snapshot apply` ends without an error, and `ListAllBackups`
  -- on the same disk drops at most as many rows as the repair reported as dangling.
  pub reconcile_local_locations-dangling :
      (rows : List BackupRecord)
      → is_abs dir ≡ true
      → ((k : ℕ) → faults.update_fails k ≡ false)
      → ((k : ℕ) → faults.delete_fails k ≡ false)
      → Distinct (λ (b : BackupRecord). b.id) rows
      → (run : Repair) × (left : List BackupRecord) × (found : List Checked)
        × (reconcile_local_locations false faults.update_fails dir disk rows ≡ (none, run))
        × (list_all_backups false faults host disk run.rows ≡ ok (found, left))
        × (length rows ≤ length left + run.dangling_after)
  unfolding reconcile_local_locations
  reconcile_local_locations-dangling rows a updates deletes unique =
      let (run, ended, table, count) =
        repair_loop-settled faults.update_fails updates dir disk [] rows (fresh_repair rows) unique
          (All-of _ rows (λ q m. tt)) refl in
      let ids : Distinct (λ (b : BackupRecord). b.id) run.rows =
        subst (Distinct (λ (b : BackupRecord). b.id)) (sym table) (
          Distinct-map (λ (b : BackupRecord). b.id) _ rows (λ b. moved-id (fate dir disk b) b)
            unique) in
      (
        run,
        swept faults host disk run.rows (λ b. true),
        answer faults host disk run.rows (newest_first run.rows),
        ended,
        list_all_backups_lem faults host disk run.rows deletes ids,
        omega (
          arith,
          count,
          lost-settled rows a,
          length-map (λ b. if true then refreshed faults host disk b else b)
              (filter (λ b. not (true && lost faults host disk b)) run.rows),
          length-filter-not (lost faults host disk) run.rows,
          ap (count_of (lost faults host disk)) table,
          ap length table,
          length-map (λ b. moved (fate dir disk b) b) rows,
        ),
      )
