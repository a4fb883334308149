-- ===== src/Instances/Sets.antt =====
-- What writes of one row leave of the instance table.
use oddk.Base.{
  ◌≡◌, refl, sym, ap, ◌∙◌, inl, inr, false, List, String, str_eq, str_eq→eq, arith, Bool-cases,
  eq_refl, if◌then◌else◌, ok,
}
use oddk.Instances.{Instance, get, update_row}
use oddk.Instances.Rows.{IsKeyed, update_row-get}

-- The table is as before, except that the row of the name is `r`.
abbrev pub Sets : String → Instance → List Instance → List Instance → Type 0
Sets name r rows after =
    IsKeyed after
    × ((j : String) → get false j after ≡ (if str_eq name j then ok r else get false j rows))

module _ (name : String) where
  pub Sets-refl :
      (r : Instance) (rows : List Instance)
      → IsKeyed rows
      → get false name rows ≡ ok r
      → Sets name r rows rows
  Sets-refl r rows keyed there = (
    keyed,
    λ j. elim (Bool-cases (str_eq name j)) [
      | inl e ↦ rw e (ap (λ k. get false k rows) (sym (str_eq→eq name j e)) ∙ there)
      | inr e ↦ rw e refl
    ],
  )

  pub Sets-self :
      (r : Instance) (rows after : List Instance)
      → Sets name r rows after
      → get false name after ≡ ok r
  Sets-self r rows after (k, s) = s name ∙ rw (eq_refl name) refl

  pub Sets-trans :
      (r s : Instance) (rows mid after : List Instance)
      → Sets name r rows mid
      → Sets name s mid after
      → Sets name s rows after
  Sets-trans r s rows mid after (_, f) (k, g) = (k, λ j. ground (arith, f j, g j))

  -- An accepted write, and one whose refusal is only logged.
  pub update_row-Sets :
      (f : Instance → Instance) (keeps : (x : Instance) → (f x).name ≡ x.name) (r : Instance)
      (rows : List Instance)
      → IsKeyed rows
      → get false name rows ≡ ok r
      → (after : List Instance) × (update_row false name f rows ≡ ok after)
        × Sets name (f r) rows after
  update_row-Sets f keeps r rows keyed there =
      let (after, e, k, s) = update_row-get name f keeps rows keyed there in (after, e, (k, s))
