-- ===== src/Retention/Floor.antt =====
-- What one call of the keep rule promises (internal/operations/retention.go).
use oddk.Base.{refl, ◌+◌, suc, ◌≡◌, ◌⊎◌, Bool, true, false, arith}
use oddk.Retention.{protects, RetentionFloor, full, snapshot_retention_protects, keep_newest}

module _ (f : RetentionFloor) (complete_kept present is_complete pin_eligible : Bool) where
  -- An unfilled floor keeps a surviving copy and spends a slot on it.
  pub floor_keeps :
      present ≡ true
      → full f ≡ false
      → let (v, f', _) =
          snapshot_retention_protects f complete_kept present is_complete pin_eligible in
        (v.keep ≡ keep_newest) × (f'.kept ≡ suc f.kept) × (f'.limit ≡ f.limit)
  unfolding snapshot_retention_protects
  floor_keeps p e = ground arith

  -- A copy that does not exist, or a full floor, spends no slot.
  pub floor_unspent :
      (present ≡ false) ⊎ (full f ≡ true)
      → (snapshot_retention_protects f complete_kept present is_complete pin_eligible).1 ≡ f
  unfolding snapshot_retention_protects
  floor_unspent h = ground arith

-- The same of the bare floor, which the backups use.
pub protects_present :
    (f : RetentionFloor) → full f ≡ false → protects f true ≡ (true, record f { kept = f.kept + 1 })
unfolding protects
protects_present f room = rw room refl

pub protects_unspent :
    (f : RetentionFloor) (present : Bool)
    → (present ≡ false) ⊎ (full f ≡ true)
    → protects f present ≡ (false, f)
unfolding protects
protects_unspent f present h = ground arith
