-- ===== src/Snapshots/Located.antt =====
-- The schema's CHECK (local_location IS NOT NULL OR remote_location IS NOT NULL), kept by every
-- operation that removes a location.
use oddk.Base.{
  ok-injective, All-filter, Distinct-filter, Option-cases, subst, ℕ, ◌≡◌, ◌≢◌, refl, sym, Bool,
  true, not, ◌||◌, none, some, List, [], ◌∷◌, arith, ◌==◌, ok, All, Distinct, Bool-cases, inl, inr,
  ==→eq,
}
use oddk.Snapshots.{
  Record, has_location, get, delete, update_row, clear_local_location, clear_remote_location,
}

abbrev pub IsLocated : Record → Type 0
IsLocated r = (has_location r.local_location || has_location r.remote_location) ≡ true

-- The rows satisfy the schema: unique ids, and a location each.
pub record IsCatalogue (rows : List Record) : Type 0 where
  pub unique : Distinct (λ (r : Record). r.id) rows
  pub located : All IsLocated rows

-- Deleting rows leaves a catalogue.
pub delete-IsCatalogue :
    (fails : ℕ → Bool) (rows : List Record) (k : ℕ) {rows' : List Record}
    → IsCatalogue rows
    → delete fails rows k ≡ ok rows'
    → IsCatalogue rows'
unfolding delete
delete-IsCatalogue fails rows k {rows'} h e = elim (Bool-cases (fails k)) [
  | inl f ↦ absurd (ground arith)
  | inr f ↦ subst IsCatalogue (ok-injective (rw f at e)) (record {
    unique = Distinct-filter (λ (r : Record). r.id) (λ r. not (r.id == k)) rows h.unique;
    located = All-filter IsLocated (λ r. not (r.id == k)) rows h.located;
  })
]

update_row-none :
    (k : ℕ) (f : Record → Record) (rows : List Record)
    → All (λ r. k ≢ r.id) rows
    → update_row k f rows ≡ rows
update_row-none k f [] h = refl
update_row-none k f (r ∷ rows) h = ground (arith, update_row-none k f rows h.1)

module _ (k : ℕ) (f : Record → Record) (keeps_id : (r : Record) → (f r).id ≡ r.id) where
  update_row-ids :
      (c : ℕ) (rows : List Record)
      → All (λ r. c ≢ r.id) rows
      → All (λ r. c ≢ r.id) (update_row k f rows)
  update_row-ids c [] h = tt
  update_row-ids c (r ∷ rows) h = ground (arith, keeps_id r, update_row-ids c rows h.1)

  -- Updating the row that `get` finds leaves a catalogue, if that row keeps a location.
  update_row-IsCatalogue :
      (rows : List Record) (r : Record)
      → IsCatalogue rows
      → get rows k ≡ some r
      → IsLocated (f r)
      → IsCatalogue (update_row k f rows)
  unfolding get
  update_row-IsCatalogue [] r h g l = cc
  update_row-IsCatalogue (x ∷ rows) r h g l = elim (Bool-cases (x.id == k)) [
    | inl e ↦
        let same : x.id ≡ k = ==→eq x.id k e in
        let found : x ≡ r = ground arith in
        let rest =
          update_row-none k f rows (subst (λ c. All (λ s. c ≢ s.id) rows) same h.unique.0) in
        rw (e, rest)
          (record {
            unique =
                (subst (λ c. All (λ s. c ≢ s.id) rows) (sym (keeps_id x)) h.unique.0, h.unique.1);
            located = (subst (λ s. IsLocated (f s)) (sym found) l, h.located.1);
          })
    | inr e ↦
        let rest =
          update_row-IsCatalogue rows r (record { unique = h.unique.1; located = h.located.1 })
            (rw e at g) l in
        rw e (record {
          unique = (update_row-ids x.id rows h.unique.0, rest.unique);
          located = (h.located.0, rest.located);
        })
  ]

module _ (fails : ℕ → Bool) (rows : List Record) (k : ℕ) {rows' : List Record} where
  -- Clearing the local location leaves a catalogue: it is refused for a row with no other copy.
  pub clear_local_location-IsCatalogue :
      IsCatalogue rows → clear_local_location fails rows k ≡ ok rows' → IsCatalogue rows'
  unfolding clear_local_location
  clear_local_location-IsCatalogue h e = elim (Bool-cases (fails k)) [
    | inl f ↦ absurd (ground arith)
    | inr f ↦ elim (Option-cases (get rows k)) [
      | inl g ↦ absurd (ground arith)
      | inr (r, g) ↦ elim (Bool-cases (has_location r.remote_location)) [
        | inl l ↦ subst IsCatalogue (ok-injective (rw (f, g, l) at e)) (
            update_row-IsCatalogue k (λ s. record s { local_location = none }) (λ s. refl) rows r h
              g l)
        | inr l ↦ absurd (ground arith)
      ]
    ]
  ]

  pub clear_remote_location-IsCatalogue :
      IsCatalogue rows → clear_remote_location fails rows k ≡ ok rows' → IsCatalogue rows'
  unfolding clear_remote_location
  clear_remote_location-IsCatalogue h e = elim (Bool-cases (fails k)) [
    | inl f ↦ absurd (ground arith)
    | inr f ↦ elim (Option-cases (get rows k)) [
      | inl g ↦ absurd (ground arith)
      | inr (r, g) ↦ elim (Bool-cases (has_location r.local_location)) [
        | inl l ↦ subst IsCatalogue (ok-injective (rw (f, g, l) at e)) (
            update_row-IsCatalogue k (λ s. record s { remote_location = none }) (λ s. refl) rows r h
              g (ground arith))
        | inr l ↦ absurd (ground arith)
      ]
    ]
  ]
