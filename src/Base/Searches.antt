-- ===== src/Base/Searches.antt =====
-- The Boolean searches as predicates.
use mathlib.Core.Path.{◌≡◌, refl}
use mathlib.Core.Logic.{◌↔◌, inl, inr}
use mathlib.Core.Bool.{Bool, true}
use mathlib.Core.List.{List, [], ◌∷◌, Memᴰ}
use native.Mathlib.Omega.{arith}
use oddk.Base.Tests.{Bool-cases}
use oddk.Base.Lists.{any, all}
use oddk.Base.Predicates.{All, any-mem}

module _ {ℓ} {A : Type ℓ} (p : A → Bool) where
  pub any-found : (xs : List A) → any p xs ≡ true → (x : A) × Memᴰ x xs × (p x ≡ true)
  any-found [] h = absurd (ground arith)
  any-found (x ∷ xs) h = elim (Bool-cases (p x)) [
    | inl e ↦ (x, Memᴰ.head refl, e)
    | inr e ↦ let (y, m, q) = any-found xs (rw e at h) in (y, Memᴰ.tail m, q)
  ]

  -- A search for entries of a kind, where `P` says what the kind is.
  pub any_iff {κ} :
      (P : A → Type κ) (xs : List A)
      → ((x : A) → (p x ≡ true) ↔ P x)
      → (any p xs ≡ true) ↔ ((x : A) × Memᴰ x xs × P x)
  any_iff P xs same = (
    λ h. let (x, m, q) = any-found xs h in (x, m, (same x).0 q),
    λ (x, m, q). any-mem p xs m ((same x).1 q),
  )

  pub all_iff {κ} :
      (P : A → Type κ) (xs : List A) → ((x : A) → (p x ≡ true) ↔ P x) → (all p xs ≡ true) ↔ All P xs
  all_iff P [] same = (λ h. tt, λ h. refl)
  all_iff P (x ∷ xs) same = elim (Bool-cases (p x)) [
    | inl e ↦
        let rest = all_iff P xs same in
        (λ h. ((same x).0 e, rest.0 (rw e at h)), λ h. rw e (rest.1 h.1))
    | inr e ↦ (λ h. absurd (ground arith), λ h. absurd (ground (arith, (same x).1 h.0)))
  ]
