-- ===== src/Instances/Rows.antt =====
-- The instance table: names stay unique, and a write is what the next read returns.
use mathlib.Core.Option
use oddk.Base.{
  str_eq→eq, Option-cases, All-append, ℕ, ◌≡◌, ◌≢◌, refl, sym, subst, ◌∙◌, ◌⊎◌, inl, inr, Bool,
  true, false, none, some, List, [], ◌∷◌, ◌++◌, String, str_eq, arith, map, any, filter,
  if◌then◌else◌, ok, err, All, Distinct, Bool-cases, eq_iff, eq_refl, not,
}
use oddk.Instances.Status.{creating}
use oddk.Instances.{
  Instance, find, create, get, update_row, delete, name_taken, not_found, database,
}

-- A read after a write of the same row sees the write; other rows are as they were. The written
-- function must keep the name.
module _ (name : String) (f : Instance → Instance)
    (keeps : (r : Instance) → (f r).name ≡ r.name) where
  find-map :
      (j : String) (rows : List Instance)
      → find (map (λ r. if str_eq r.name name then f r else r) rows) (λ r. str_eq r.name j) ≡ (
          if str_eq name j
          then Option.map f (find rows (λ r. str_eq r.name j))
          else find rows (λ r. str_eq r.name j))
  find-map j [] = ground arith
  find-map j (r ∷ rows) =
      ground (arith, find-map j rows, keeps r, eq_iff r.name name, eq_iff r.name j, eq_iff name j)

-- The names are a key of the table.
abbrev pub IsKeyed : List Instance → Type 0
IsKeyed rows = Distinct (λ (r : Instance). r.name) rows

fresh_names :
    (n : String) (rows : List Instance)
    → any (λ r. str_eq r.name n) rows ≡ false
    → All (λ r. r.name ≢ n) rows
fresh_names n [] h = tt
fresh_names n (r ∷ rows) h = ground (arith, fresh_names n rows, eq_iff r.name n)

append-IsKeyed :
    (rows : List Instance) (x : Instance)
    → All (λ r. r.name ≢ x.name) rows
    → IsKeyed rows
    → IsKeyed (rows ++ x ∷ [])
append-IsKeyed [] x h k = (tt, tt)
append-IsKeyed (r ∷ rows) x h k =
    (All-append (λ s. r.name ≢ s.name) rows (x ∷ []) k.0 (h.0, tt), append-IsKeyed rows x h.1 k.1)

All-names :
    (n : String) (p : Instance → Bool) (rows : List Instance)
    → All (λ s. n ≢ s.name) rows
    → All (λ s. n ≢ s.name) (filter p rows)
All-names n p [] h = tt
All-names n p (r ∷ rows) h = ground (arith, All-names n p rows h.1)

filter-IsKeyed :
    (p : Instance → Bool) (rows : List Instance) → IsKeyed rows → IsKeyed (filter p rows)
filter-IsKeyed p [] h = tt
filter-IsKeyed p (r ∷ rows) h =
    ground (arith, filter-IsKeyed p rows h.1, All-names r.name p rows h.0)

map-names :
    (f : Instance → Instance) (n : String) (rows : List Instance)
    → ((r : Instance) → (f r).name ≡ r.name)
    → All (λ s. n ≢ s.name) rows
    → All (λ s. n ≢ s.name) (map f rows)
map-names f n [] keeps h = tt
map-names f n (r ∷ rows) keeps h = (λ e. h.0 (e ∙ keeps r), map-names f n rows keeps h.1)

pub map-IsKeyed :
    (f : Instance → Instance) (rows : List Instance)
    → ((r : Instance) → (f r).name ≡ r.name)
    → IsKeyed rows
    → IsKeyed (map f rows)
map-IsKeyed f [] keeps h = tt
map-IsKeyed f (r ∷ rows) keeps h = (
  subst (λ n. All (λ s. n ≢ s.name) (map f rows)) (sym (keeps r))
      (map-names f r.name rows keeps h.0),
  map-IsKeyed f rows keeps h.1,
)

found-any :
    (name : String) (rows : List Instance) {r : Instance}
    → find rows (λ s. str_eq s.name name) ≡ some r
    → any (λ s. str_eq s.name name) rows ≡ true
found-any name [] h = cc
found-any name (x ∷ rows) {r} h = ground (arith, found-any name rows {r = r})

missing-any :
    (name : String) (rows : List Instance)
    → find rows (λ s. str_eq s.name name) ≡ none
    → any (λ s. str_eq s.name name) rows ≡ false
missing-any name [] h = refl
missing-any name (x ∷ rows) h = ground (arith, missing-any name rows)

abbrev at_name : String → (Instance → Instance) → Instance → Instance
at_name name f r = if str_eq r.name name then f r else r

module _ (name : String) (f : Instance → Instance)
    (keeps : (r : Instance) → (f r).name ≡ r.name) where
  after_update :
      (rows : List Instance) {r : Instance} (j : String)
      → find rows (λ s. str_eq s.name name) ≡ some r
      → find (map (at_name name f) rows) (λ s. str_eq s.name j)
        ≡ (if str_eq name j then some (f r) else find rows (λ s. str_eq s.name j))
  after_update rows {r} j there = elim (Bool-cases (str_eq name j)) [
    | inr e ↦ rw (find-map name f keeps j rows, e) refl
    | inl e ↦
        subst
          (λ k.
            find (map (at_name name f) rows) (λ s. str_eq s.name k)
            ≡ (if str_eq name k then some (f r) else find rows (λ s. str_eq s.name k)))
          (str_eq→eq name j e) (rw (find-map name f keeps name rows, eq_refl name, there) refl)
  ]

  -- An update of a row that is there succeeds, keeps the names a key, and changes what `get`
  -- returns for that name, by `f`, and for no other name. `f` must keep the name.
  pub update_row-get :
      (rows : List Instance) {r : Instance}
      → IsKeyed rows
      → get false name rows ≡ ok r
      → (rows' : List Instance) × (update_row false name f rows ≡ ok rows')
        × IsKeyed rows'
        × ((j : String)
            → get false j rows' ≡ (if str_eq name j then ok (f r) else get false j rows))
  unfolding update_row get
  update_row-get rows {r} keyed g =
      let there : find rows (λ s. str_eq s.name name) ≡ some r = ground arith in
      (
        map (at_name name f) rows,
        rw (found-any name rows there) refl,
        map-IsKeyed (at_name name f) rows (λ s. ground (arith, keeps s)) keyed,
        λ j. ground (arith, after_update rows j there),
      )

  pub update_row-refused : (rows : List Instance) → update_row true name f rows ≡ err database
  unfolding update_row
  update_row-refused rows = refl

  -- An update of a name that is not there is refused, as the read is.
  pub update_row-missing :
      (rows : List Instance)
      → get false name rows ≡ err not_found
      → update_row false name f rows ≡ err not_found
  unfolding update_row get
  update_row-missing rows g = rw (missing-any name rows (ground arith)) refl

abbrev created : ℕ → Instance → Instance
created now fresh = record fresh { status = creating; created_at = now; updated_at = now }

find-append :
    (rows : List Instance) (x : Instance) (j : String)
    → any (λ r. str_eq r.name x.name) rows ≡ false
    → find (rows ++ x ∷ []) (λ r. str_eq r.name j)
      ≡ (if str_eq x.name j then some x else find rows (λ r. str_eq r.name j))
find-append [] x j h = refl
find-append (r ∷ rows) x j h =
    ground (arith, find-append rows x j, eq_iff r.name x.name, eq_iff r.name j, eq_iff x.name j)

module _ (now : ℕ) (fresh : Instance) (rows : List Instance) where
  -- A new name is stored as `creating`, the names stay a key, and reads of other names are as they
  -- were. A name that is taken is refused.
  pub create_lem :
      IsKeyed rows
      → ((get false fresh.name rows ≡ err not_found)
          × ((rows' : List Instance) × (create false now fresh rows ≡ ok rows')
              × IsKeyed rows'
              × ((j : String)
                  → get false j rows' ≡ (
                      if str_eq fresh.name j
                      then ok
                          (record fresh { status = creating; created_at = now; updated_at = now })
                      else get false j rows))))
        ⊎ (((r : Instance) × (get false fresh.name rows ≡ ok r))
            × (create false now fresh rows ≡ err name_taken))
  unfolding create get
  create_lem keyed = elim (Option-cases (find rows (λ r. str_eq r.name fresh.name))) [
    | inl e ↦
        let free = missing-any fresh.name rows e in
        inl (
          rw e refl,
          (
            rows ++ created now fresh ∷ [],
            rw free refl,
            append-IsKeyed rows (created now fresh) (fresh_names fresh.name rows free) keyed,
            λ j. ground (arith, find-append rows (created now fresh) j free),
          ),
        )
    | inr (r, e) ↦ inr ((r, rw e refl), rw (found-any fresh.name rows e) refl)
  ]

find-filter :
    (name j : String) (rows : List Instance)
    → find (filter (λ r. not (str_eq r.name name)) rows) (λ r. str_eq r.name j)
      ≡ (if str_eq name j then none else find rows (λ r. str_eq r.name j))
find-filter name j [] = ground arith
find-filter name j (r ∷ rows) =
    ground (arith, find-filter name j rows, eq_iff r.name name, eq_iff r.name j, eq_iff name j)

-- Deleting a name leaves the other rows, and frees the name.
pub delete-get :
    (name j : String) (rows : List Instance)
    → IsKeyed rows
    → (rows' : List Instance) × (delete false name rows ≡ ok rows')
      × IsKeyed rows'
      × (get false j rows' ≡ (if str_eq name j then err not_found else get false j rows))
unfolding delete get
delete-get name j rows keyed = (
  filter (λ r. not (str_eq r.name name)) rows,
  refl,
  filter-IsKeyed (λ r. not (str_eq r.name name)) rows keyed,
  ground (arith, find-filter name j rows),
)
