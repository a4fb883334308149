-- ===== src/Retention/Loop.antt =====
-- A retention loop over copies, newest first, whatever a copy is: what the turns must promise for
-- the floor to hold at the end. The cleanups of internal/operations are instances.
use oddk.Base.{
  ℕ, suc, ◌+◌, ◌≤◌, ◌≡◌, refl, ◌∙◌, ap, ◌⊎◌, Bool, true, false, List, [], ◌∷◌, min, arith, All,
  count_of, if◌then◌else◌,
}
use oddk.Retention.{RetentionFloor, full}

-- The state of the loop is `S` and its entries are `R`.
pub record Turns {ℓ κ} (S : Type ℓ) (R : Type κ) : Type (ℓ ⊔ κ) where
  pub step : R → S → S
  pub floor : S → RetentionFloor
  pub survives : S → R → Bool

module _ {ℓ κ} {S : Type ℓ} {R : Type κ} (t : Turns S R) where
  abbrev pub loop : List R → S → S
  loop [] s = s
  loop (r ∷ rs) s = loop rs (t.step r s)

  -- A turn for `r` does not change what becomes of `q`, nor the other way round.
  abbrev pub Apart : R → R → Type ℓ
  Apart r q =
      ((s : S) → t.survives (t.step r s) q ≡ t.survives s q)
      × ((s : S) → t.survives (t.step q s) r ≡ t.survives s r)

  abbrev pub AllApart : List R → Type ℓ
  AllApart [] = Unit
  AllApart (r ∷ rs) = All (Apart r) rs × AllApart rs

  abbrev pub survivors : S → List R → ℕ
  survivors s rs = count_of (t.survives s) rs

  -- With a full floor anything may happen; before that, a copy that is there stays and takes a slot,
  -- and no other takes one.
  pub record FillsFloor : Type (ℓ ⊔ κ) where
    pub limit : (r : R) (s : S) → (t.floor (t.step r s)).limit ≡ (t.floor s).limit
    pub turn :
        (r : R) (s : S)
        → (full (t.floor s) ≡ true)
          ⊎ (((t.floor (t.step r s)).kept ≡ (t.floor s).kept) × (t.survives s r ≡ false))
          ⊎ (((t.floor (t.step r s)).kept ≡ suc (t.floor s).kept)
              × (t.survives (t.step r s) r ≡ true))

  survivors-cong :
      (r : R) (rs : List R) (s : S) → All (Apart r) rs → survivors (t.step r s) rs ≡ survivors s rs
  survivors-cong r [] s h = refl
  survivors-cong r (q ∷ rs) s h =
      rw (h.0.0 s) (ap (λ n. (if t.survives s q then 1 else 0) + n) (survivors-cong r rs s h.1))

  -- The later turns leave what an earlier one did.
  pub loop-survives :
      (r : R) (rs : List R) (s : S) → All (Apart r) rs → t.survives (loop rs s) r ≡ t.survives s r
  loop-survives r [] s h = refl
  loop-survives r (q ∷ rs) s h = loop-survives r rs (t.step q s) h.1 ∙ h.0.1 s

  -- The copies that survive fill the floor, or are all that there were.
  pub loop-floor :
      FillsFloor
      → (rs : List R) (s : S) → AllApart rs
      → min (t.floor s).limit ((t.floor s).kept + survivors s rs)
        ≤ (t.floor s).kept + survivors (loop rs s) rs
  unfolding full
  loop-floor fills [] s own = omega arith
  loop-floor fills (r ∷ rs) s own = ground (
    arith,
    loop-floor fills rs (t.step r s) own.1,
    fills.limit r s,
    fills.turn r s,
    survivors-cong r rs s own.0,
    loop-survives r rs (t.step r s) own.0,
  )
