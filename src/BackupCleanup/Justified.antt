-- ===== src/BackupCleanup/Justified.antt =====
-- Every file that the local cleanup removes is past the window, and is not an only copy.
use oddk.Base.{
  ◌<◌, ◌≡◌, ◌≢◌, refl, sym, ap, ◌∙◌, inl, inr, ◌⊎◌, true, Option, none, some, List, [], ◌∷◌, String,
  arith, All-at, Memᴰ, some-injective, ne→str_eq,
}
use oddk.Disk.{Disk, found, local_archive_present, resolve}
use oddk.Retention.{protects}
use oddk.Backups.{BackupRecord, Checked, Host, valid}
use oddk.BackupCleanup.{Limits, Run, step_at, local_step, local_loop}
use oddk.BackupCleanup.Local.{file_at, file_of, Stands, Agrees, remove_aged-disk}
use oddk.BackupCleanup.LocalFloor.{age_out-cases}
use oddk.BackupCleanup.LocalLoop.{State, turns}

-- What a removal must be able to show.
pub record Due (limits : Limits) (p : String) (c : Checked) : Type 0 where
  pub named : file_of limits.host c.backup ≡ some p
  pub aged : c.backup.timestamp < limits.cutoff
  pub copied : limits.offsite_configured ≡ true → valid c.backup.remote_location ≡ true

abbrev pub empty : String
empty = ""

-- A location, if there is one, is not empty.
abbrev pub NonEmpty : BackupRecord → Type 0
NonEmpty b = b.local_location ≢ some empty

found_present :
    (host : Host) (disk : Disk) (location p : String)
    → location ≢ empty
    → resolve host.data_dir location ≡ p
    → disk p ≡ found
    → local_archive_present disk host.data_dir location ≡ true
unfolding local_archive_present
found_present host disk location p h e f = rw (ne→str_eq location empty h, e, f) refl

-- The row that stands for a listed record names its file.
row-file_of :
    (host : Host) (c r : BackupRecord) (p : String)
    → Stands c r
    → r.id ≡ c.id
    → file_of host r ≡ some p
    → file_of host c ≡ some p
row-file_of host c r p h i file = elim (h i) [
  | inl gone ↦ absurd (ground (arith, ap (file_at host) gone, file))
  | inr same ↦ ap (file_at host) (sym same) ∙ file
]

module _ (limits : Limits) (c : Checked) (run : Run) (p : String) where
  step_at-Due :
      (location : Option String)
      → c.backup.local_location ≡ location
      → NonEmpty c.backup
      → Agrees c.backup run.rows
      → run.disk p ≡ found
      → ((step_at limits c.backup location run).disk p ≡ run.disk p) ⊎ Due limits p c
  step_at-Due none e filled agrees there = inl refl
  step_at-Due (some location) e filled agrees there =
      let present = local_archive_present run.disk limits.host.data_dir location in
      let answer = protects run.floor present in
      let seen : Run = record run { floor = answer.1 } in
      elim (age_out-cases limits c.backup present answer.0 seen) [
        | inl same ↦ inl (ap (λ (s : Run). s.disk p) same)
        | inr (removed, _, aged, copied) ↦ elim (remove_aged-disk limits c.backup seen p) [
          | inl same ↦ inl (ap (λ (s : Run). s.disk p) removed ∙ same)
          | inr (r, m, i, file) ↦
              let named =
                row-file_of limits.host c.backup r p (All-at (Stands c.backup) run.rows agrees m) i
                  file in
              let path = some-injective (ap (file_at limits.host) (sym e) ∙ named) in
              inr (record {
                named = named;
                aged = aged;
                copied = copied (
                    found_present limits.host run.disk location p (λ q. filled (e ∙ ap some q)) path
                      there);
              })
        ]
      ]

module _ (limits : Limits) (listed : List Checked) (p : String) where
  pub local_loop-Due :
      (cs : List Checked)
      → ((c : Checked) → Memᴰ c cs → Memᴰ c listed × NonEmpty c.backup)
      → (s : State limits listed) → s.0.disk p ≡ found
      → ((local_loop limits cs s.0).disk p ≡ found) ⊎ ((c : Checked) × Memᴰ c cs × Due limits p c)
  unfolding local_loop local_step
  local_loop-Due [] n s there = inl there
  local_loop-Due (c ∷ cs) n s there =
      let (m, filled) = n c (Memᴰ.head refl) in
      let agrees = All-at (λ (x : Checked). Agrees x.backup s.0.rows) listed s.1 m in
      elim (step_at-Due limits c s.0 p c.backup.local_location refl filled agrees there) [
        | inr due ↦ inr (c, Memᴰ.head refl, due)
        | inl same ↦
            elim (local_loop-Due cs (λ x k. n x (Memᴰ.tail k)) ((turns limits listed).step c s)
              (same ∙ there)) [
                | inl still ↦ inl still
                | inr (x, k, due) ↦ inr (x, Memᴰ.tail k, due)
              ]
      ]
