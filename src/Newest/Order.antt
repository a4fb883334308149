-- ===== src/Newest/Order.antt =====
-- What the listing keeps of the table.
use oddk.Base.{
  Pairwise, leb, Memᴰ, Bool-cases, inl, inr, mem-under, mem-swap, Bool, count_of, ◌≡◌, refl, ℕ, ◌≤◌,
  List, [], ◌∷◌, arith, All,
}
use oddk.Newest.{insert_by, newest_by}

module _ {ℓ} {A : Type ℓ} (instant : A → ℕ) where
  -- No row is newer than one before it.
  abbrev pub NewestFirst : List A → Type 0
  NewestFirst [] = Unit
  NewestFirst (r ∷ rest) = All (λ s. instant s ≤ instant r) rest × NewestFirst rest

  All-weaken :
      (a b : ℕ) (rs : List A) → a ≤ b → All (λ s. instant s ≤ a) rs → All (λ s. instant s ≤ b) rs
  All-weaken a b [] h all = tt
  All-weaken a b (r ∷ rs) h all = (omega arith, All-weaken a b rs h all.1)

  module _ {κ} (P : A → Type κ) where
    pub All-insert_by : (r : A) (rs : List A) → All P (r ∷ rs) → All P (insert_by instant r rs)
    All-insert_by r [] h = h
    All-insert_by r (s ∷ rs) h = elim (Bool-cases (leb (instant s) (instant r))) [
      | inl t ↦ rw t h
      | inr t ↦ rw t (h.1.0, All-insert_by r rs (h.0, h.1.1))
    ]

    pub All-newest_by : (rows : List A) → All P rows → All P (newest_by instant rows)
    unfolding newest_by
    All-newest_by [] h = tt
    All-newest_by (r ∷ rows) h =
        All-insert_by r (newest_by instant rows) (h.0, All-newest_by rows h.1)

  insert_by-NewestFirst :
      (r : A) (rs : List A) → NewestFirst rs → NewestFirst (insert_by instant r rs)
  insert_by-NewestFirst r [] h = (tt, tt)
  insert_by-NewestFirst r (s ∷ rs) h = ground (
    arith,
    insert_by-NewestFirst r rs h.1,
    All-weaken (instant s) (instant r) rs,
    All-insert_by (λ x. instant x ≤ instant s) r rs,
  )

  -- Whatever the order of the table, the listing is newest first.
  pub newest_by-NewestFirst : (rows : List A) → NewestFirst (newest_by instant rows)
  unfolding newest_by
  newest_by-NewestFirst [] = tt
  newest_by-NewestFirst (r ∷ rows) =
      insert_by-NewestFirst r (newest_by instant rows) (newest_by-NewestFirst rows)

  mem-insert_by : (r : A) (rs : List A) {x : A} → Memᴰ x (r ∷ rs) → Memᴰ x (insert_by instant r rs)
  mem-insert_by r [] m = m
  mem-insert_by r (s ∷ rs) (Memᴰ.head e) = elim (Bool-cases (leb (instant s) (instant r))) [
    | inl t ↦ rw t (Memᴰ.head e)
    | inr t ↦ rw t (Memᴰ.tail (mem-insert_by r rs (Memᴰ.head e)))
  ]
  mem-insert_by r (s ∷ rs) (Memᴰ.tail m) = elim (Bool-cases (leb (instant s) (instant r))) [
    | inl t ↦ rw t (Memᴰ.tail m)
    | inr t ↦ rw t (mem-under m (λ n. mem-insert_by r rs (Memᴰ.tail n)))
  ]

  -- The listing leaves out no row.
  pub mem-newest_by : (rows : List A) {x : A} → Memᴰ x rows → Memᴰ x (newest_by instant rows)
  unfolding newest_by
  mem-newest_by [] m = m
  mem-newest_by (r ∷ rows) (Memᴰ.head e) = mem-insert_by r (newest_by instant rows) (Memᴰ.head e)
  mem-newest_by (r ∷ rows) (Memᴰ.tail m) =
      mem-insert_by r (newest_by instant rows) (Memᴰ.tail (mem-newest_by rows m))

  -- Nor does it add one.
  insert_by-mem : (r : A) (rs : List A) {x : A} → Memᴰ x (insert_by instant r rs) → Memᴰ x (r ∷ rs)
  insert_by-mem r [] m = m
  insert_by-mem r (s ∷ rs) {x} m = elim (Bool-cases (leb (instant s) (instant r))) [
    | inl t ↦ rw t at m
    | inr t ↦ mem-swap r s {xs = rs} (rw t at m) (λ n. insert_by-mem r rs n)
  ]

  pub newest_by-mem : (rows : List A) {x : A} → Memᴰ x (newest_by instant rows) → Memᴰ x rows
  unfolding newest_by
  newest_by-mem [] m = m
  newest_by-mem (r ∷ rows) m =
      mem-under (insert_by-mem r (newest_by instant rows) m) (λ n. newest_by-mem rows n)

  count_of-insert_by :
      (p : A → Bool) (r : A) (rs : List A)
      → count_of p (insert_by instant r rs) ≡ count_of p (r ∷ rs)
  count_of-insert_by p r [] = refl
  count_of-insert_by p r (s ∷ rs) = ground (arith, count_of-insert_by p r rs)

  pub count_of-newest_by :
      (p : A → Bool) (rows : List A) → count_of p (newest_by instant rows) ≡ count_of p rows
  unfolding newest_by
  count_of-newest_by p [] = refl
  count_of-newest_by p (r ∷ rows) =
      omega (arith, count_of-insert_by p r (newest_by instant rows), count_of-newest_by p rows)

  -- The order of a listing does not matter to a symmetric relation.
  module _ {κ} (R : A → A → Type κ) (commutes : (r s : A) → R r s → R s r) where
    Pairwise-insert_by :
        (r : A) (rs : List A) → Pairwise R (r ∷ rs) → Pairwise R (insert_by instant r rs)
    Pairwise-insert_by r [] h = h
    Pairwise-insert_by r (s ∷ rs) h = elim (Bool-cases (leb (instant s) (instant r))) [
      | inl t ↦ rw t h
      | inr t ↦ rw t (
        All-insert_by (R s) r rs (commutes r s h.0.0, h.1.0),
        Pairwise-insert_by r rs (h.0.1, h.1.1),
      )
    ]

    pub Pairwise-newest_by : (rows : List A) → Pairwise R rows → Pairwise R (newest_by instant rows)
    unfolding newest_by
    Pairwise-newest_by [] h = tt
    Pairwise-newest_by (r ∷ rows) h =
        Pairwise-insert_by r (newest_by instant rows)
          (All-newest_by (R r) rows h.0, Pairwise-newest_by rows h.1)
