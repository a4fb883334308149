-- ===== src/BackupCleanup/LocalLoop.antt =====
-- The turns of the local cleanup keep to their own files.
use oddk.Base.{
  ◌≡◌, ◌≢◌, refl, sym, ap, ◌∙◌, inl, inr, none, some, List, [], ◌∷◌, String, arith, All, All-at,
  Pairwise, Memᴰ,
}
use oddk.Retention.Loop.{Turns, FillsFloor, Apart, AllApart, loop}
use oddk.Backups.{BackupRecord, Checked}
use oddk.BackupCleanup.{Limits, Run, local_step, local_loop}
use oddk.BackupCleanup.Local.{file_at, file_of, Stands, Agrees}
use oddk.BackupCleanup.LocalFloor.{
  is_there, there_at-cong, step_at-disk, step_at-Agrees, step_at-limit, step_at-slot,
}

-- The listed backups, and a run whose table agrees with them.
module _ (limits : Limits) (listed : List Checked) where
  abbrev pub Agreeing : Run → Type 0
  Agreeing run = All (λ (c : Checked). Agrees c.backup run.rows) listed

  pub all_agree :
      (c : Checked) (run : Run) (cs : List Checked)
      → All (λ (x : Checked). Agrees x.backup run.rows) cs
      → All (λ (x : Checked). Agrees x.backup (local_step limits c run).rows) cs
  unfolding local_step
  all_agree c run [] h = tt
  all_agree c run (x ∷ cs) h = (
    step_at-Agrees limits c.backup run c.backup.local_location x.backup h.0,
    all_agree c run cs h.1,
  )

  abbrev pub State : Type 0
  State = (run : Run) × Agreeing run

  abbrev pub turns : Turns State Checked
  turns = record {
    step = λ c s. (local_step limits c s.0, all_agree c s.0 listed s.1);
    floor = λ s. s.0.floor;
    survives = λ s c. is_there limits.host s.0.disk c;
  }

  pub turns-FillsFloor : FillsFloor turns
  unfolding local_step
  turns-FillsFloor = record {
    limit = λ c s. step_at-limit limits c.backup s.0 c.backup.local_location;
    turn = λ c s. step_at-slot limits c.backup s.0 c.backup.local_location;
  }

  -- No file belongs to both.
  abbrev pub OtherFile : Checked → Checked → Type 0
  OtherFile c d =
      (p : String) → file_of limits.host c.backup ≡ some p → file_of limits.host d.backup ≢ some p

  -- A turn touches the file of its own record only.
  local_step-other :
      (c d : Checked) (s : State)
      → Memᴰ c listed
      → OtherFile c d
      → is_there limits.host (local_step limits c s.0).disk d ≡ is_there limits.host s.0.disk d
  unfolding local_step
  local_step-other c d s m other = there_at-cong limits.host _ _ d.backup.local_location (λ p mine.
      elim (step_at-disk limits c.backup s.0 c.backup.local_location p) [
        | inl same ↦ same
        | inr (r, n, i, file) ↦
            elim (All-at (Stands c.backup) s.0.rows
              (All-at (λ (x : Checked). Agrees x.backup s.0.rows) listed s.1 m) n i) [
                | inl gone ↦ absurd (no_file r p gone file)
                | inr same ↦ absurd (other p (ap (file_at limits.host) (sym same) ∙ file) mine)
              ]
      ])
    where
      no_file :
          (r : BackupRecord) (p : String) → r.local_location ≡ none → file_of limits.host r ≢ some p
      no_file r p gone file = ground (arith, ap (file_at limits.host) gone, file)

  pub local_loop-loop :
      (cs : List Checked) (s : State) → local_loop limits cs s.0 ≡ (loop turns cs s).0
  unfolding local_loop
  local_loop-loop [] s = refl
  local_loop-loop (c ∷ cs) s = local_loop-loop cs (turns.step c s)

  turns_commute :
      (c : Checked) (cs : List Checked)
      → Memᴰ c listed
      → ((x : Checked) → Memᴰ x cs → Memᴰ x listed)
      → All (OtherFile c) cs
      → All (Apart turns c) cs
  turns_commute c [] m n h = tt
  turns_commute c (d ∷ cs) m n h = (
    (
      λ s. local_step-other c d s m h.0,
      λ s. local_step-other d c s (n d (Memᴰ.head refl)) (λ p e f. h.0 p f e),
    ),
    turns_commute c cs m (λ x k. n x (Memᴰ.tail k)) h.1,
  )

  pub Pairwise-AllApart :
      (cs : List Checked)
      → ((x : Checked) → Memᴰ x cs → Memᴰ x listed)
      → Pairwise OtherFile cs
      → AllApart turns cs
  Pairwise-AllApart [] n h = tt
  Pairwise-AllApart (c ∷ cs) n h = (
    turns_commute c cs (n c (Memᴰ.head refl)) (λ x k. n x (Memᴰ.tail k)) h.0,
    Pairwise-AllApart cs (λ x k. n x (Memᴰ.tail k)) h.1,
  )
