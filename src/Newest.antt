-- ===== src/Newest.antt =====
-- `ORDER BY <instant> DESC`: rows listed newest first, by insertion. The catalogues of snapshots and
-- of backups read their tables through it.
pub mod Order
use oddk.Base.{ℕ, List, [], ◌∷◌, leb, if◌then◌else◌}

module _ {ℓ} {A : Type ℓ} (instant : A → ℕ) where
  abbrev pub insert_by : A → List A → List A
  insert_by r [] = r ∷ []
  insert_by r (s ∷ rest) =
      let later = insert_by r rest in
      if leb (instant s) (instant r) then r ∷ s ∷ rest else s ∷ later

  unfoldable pub newest_by : List A → List A
  newest_by [] = []
  newest_by (r ∷ rest) = insert_by r (newest_by rest)
