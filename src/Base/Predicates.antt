-- ===== src/Base/Predicates.antt =====
-- Predicates on lists by recursion: they compute to tuples, which the tactics read and build.
use mathlib.Core.Path.{◌≡◌, refl, ap, ap₂, subst, sym, ◌∙◌}
use mathlib.Core.Logic.{◌≢◌, inl, inr}
use mathlib.Core.Bool.{Bool, true, false, ◌&&◌}
use mathlib.Core.List.{List, [], ◌∷◌, ◌++◌, map, Memᴰ}
use native.Mathlib.Omega.{arith}
use oddk.Base.Tests.{Bool-cases}
use oddk.Base.Lists.{filter, any}

module _ {ℓ κ} {A : Type ℓ} where
  abbrev pub All : (A → Type κ) → List A → Type κ
  All P [] = Unit
  All P (x ∷ xs) = P x × All P xs

  pub All-at : (P : A → Type κ) (xs : List A) {x : A} → All P xs → Memᴰ x xs → P x
  All-at P [] h m = elim m [ ]
  All-at P (y ∷ ys) h (Memᴰ.head e) = subst P (sym e) h.0
  All-at P (y ∷ ys) h (Memᴰ.tail m) = All-at P ys h.1 m

  pub All-append : (P : A → Type κ) (xs ys : List A) → All P xs → All P ys → All P (xs ++ ys)
  All-append P [] ys hx hy = hy
  All-append P (x ∷ xs) ys hx hy = (hx.0, All-append P xs ys hx.1 hy)

module _ {ℓ} {A : Type ℓ} where
  -- Membership under a shared head, and past an entry put second.
  pub mem-under :
      {a x : A} {xs ys : List A} → Memᴰ a (x ∷ xs) → (Memᴰ a xs → Memᴰ a ys) → Memᴰ a (x ∷ ys)
  mem-under (Memᴰ.head e) f = Memᴰ.head e
  mem-under (Memᴰ.tail m) f = Memᴰ.tail (f m)

  pub mem-second : {a x : A} (y : A) {xs : List A} → Memᴰ a (x ∷ xs) → Memᴰ a (x ∷ y ∷ xs)
  mem-second y m = mem-under m (λ n. Memᴰ.tail n)

  pub mem-swap :
      {a : A} (x y : A) {xs ys : List A}
      → Memᴰ a (y ∷ ys)
      → (Memᴰ a ys → Memᴰ a (x ∷ xs))
      → Memᴰ a (x ∷ y ∷ xs)
  mem-swap x y (Memᴰ.head e) f = Memᴰ.tail (Memᴰ.head e)
  mem-swap x y (Memᴰ.tail m) f = mem-second y (f m)

module _ {ℓ κ} {A : Type ℓ} {B : Type κ} where
  -- The images of the entries under `f` are pairwise different.
  abbrev pub Distinct : (A → B) → List A → Type κ
  Distinct f [] = Unit
  Distinct f (x ∷ xs) = All (λ y. f x ≢ f y) xs × Distinct f xs

module _ {ℓ κ} {A : Type ℓ} where
  -- Every two entries are related, the earlier one first.
  abbrev pub Pairwise : (A → A → Type κ) → List A → Type κ
  Pairwise R [] = Unit
  Pairwise R (x ∷ xs) = All (R x) xs × Pairwise R xs

module _ {ℓ κ} {A : Type ℓ} where
  pub All-filter : (P : A → Type κ) (p : A → Bool) (xs : List A) → All P xs → All P (filter p xs)
  All-filter P p [] h = tt
  All-filter P p (x ∷ xs) h = elim (Bool-cases (p x)) [
    | inl e ↦ rw e (h.0, All-filter P p xs h.1)
    | inr e ↦ rw e (All-filter P p xs h.1)
  ]

  pub All-map :
      (P : A → Type κ) (f : A → A) (xs : List A)
      → ((x : A) → P x → P (f x))
      → All P xs
      → All P (map f xs)
  All-map P f [] keeps h = tt
  All-map P f (x ∷ xs) keeps h = (keeps x h.0, All-map P f xs keeps h.1)

  pub All-map_into :
      (P Q : A → Type κ) (f : A → A) (xs : List A)
      → ((x : A) → P x → Q (f x))
      → All P xs
      → All Q (map f xs)
  All-map_into P Q f [] turns h = tt
  All-map_into P Q f (x ∷ xs) turns h = (turns x h.0, All-map_into P Q f xs turns h.1)

  -- A fact about the members.
  pub All-of : (P : A → Type κ) (xs : List A) → ((x : A) → Memᴰ x xs → P x) → All P xs
  All-of P [] h = tt
  All-of P (x ∷ xs) h = (h x (Memᴰ.head refl), All-of P xs (λ y m. h y (Memᴰ.tail m)))

module _ {ℓ κ} {A : Type ℓ} {B : Type κ} (f : A → B) where
  pub Distinct-filter : (p : A → Bool) (xs : List A) → Distinct f xs → Distinct f (filter p xs)
  Distinct-filter p [] h = tt
  Distinct-filter p (x ∷ xs) h = elim (Bool-cases (p x)) [
    | inl e ↦ rw e (All-filter (λ y. f x ≢ f y) p xs h.0, Distinct-filter p xs h.1)
    | inr e ↦ rw e (Distinct-filter p xs h.1)
  ]

  -- A map that keeps the images keeps them different.
  All-map-differs :
      (g : A → A) (b : B) (xs : List A)
      → ((x : A) → f (g x) ≡ f x)
      → All (λ y. b ≢ f y) xs
      → All (λ y. b ≢ f y) (map g xs)
  All-map-differs g b [] same h = tt
  All-map-differs g b (x ∷ xs) same h = ((λ e. h.0 (e ∙ same x)), All-map-differs g b xs same h.1)

  pub Distinct-map :
      (g : A → A) (xs : List A) → ((x : A) → f (g x) ≡ f x) → Distinct f xs → Distinct f (map g xs)
  Distinct-map g [] same h = tt
  Distinct-map g (x ∷ xs) same h = (
    subst (λ b. All (λ y. b ≢ f y) (map g xs)) (sym (same x)) (All-map-differs g (f x) xs same h.0),
    Distinct-map g xs same h.1,
  )

  -- Under a key, members with one key are one member.
  pub Distinct-injective :
      (xs : List A) {x y : A} → Distinct f xs → Memᴰ x xs → Memᴰ y xs → f x ≡ f y → x ≡ y
  Distinct-injective [] h m n e = elim m [ ]
  Distinct-injective (z ∷ zs) h (Memᴰ.head p) (Memᴰ.head q) e = p ∙ sym q
  Distinct-injective (z ∷ zs) {y} h (Memᴰ.head p) (Memᴰ.tail n) e =
      absurd (All-at (λ w. f z ≢ f w) zs h.0 n (ap f (sym p) ∙ e))
  Distinct-injective (z ∷ zs) {x} h (Memᴰ.tail m) (Memᴰ.head q) e =
      absurd (All-at (λ w. f z ≢ f w) zs h.0 m (sym (e ∙ ap f q)))
  Distinct-injective (z ∷ zs) h (Memᴰ.tail m) (Memᴰ.tail n) e = Distinct-injective zs h.1 m n e

pub map-cong {ℓ κ} :
    {A : Type ℓ} {B : Type κ} (f g : A → B) (xs : List A)
    → ((x : A) → f x ≡ g x)
    → map f xs ≡ map g xs
map-cong f g [] h = refl
map-cong f g (x ∷ xs) h = ap₂ (λ y ys. y ∷ ys) (h x) (map-cong f g xs h)

module _ {ℓ} {A : Type ℓ} where
  pub map-map : (f g : A → A) (xs : List A) → map f (map g xs) ≡ map (λ x. f (g x)) xs
  map-map f g [] = refl
  map-map f g (x ∷ xs) = ap (λ ys. f (g x) ∷ ys) (map-map f g xs)

  pub map-id : (f : A → A) (xs : List A) → ((x : A) → f x ≡ x) → map f xs ≡ xs
  map-id f [] h = refl
  map-id f (x ∷ xs) h = ap₂ (λ y ys. y ∷ ys) (h x) (map-id f xs h)

  pub filter-cong :
      (p q : A → Bool) (xs : List A) → ((x : A) → p x ≡ q x) → filter p xs ≡ filter q xs
  filter-cong p q [] h = refl
  filter-cong p q (x ∷ xs) h = ground (arith, h x, filter-cong p q xs h)

  pub filter-true : (xs : List A) → filter (λ x. true) xs ≡ xs
  filter-true [] = refl
  filter-true (x ∷ xs) = ap (λ ys. x ∷ ys) (filter-true xs)

  pub filter-filter :
      (p q : A → Bool) (xs : List A) → filter p (filter q xs) ≡ filter (λ x. q x && p x) xs
  filter-filter p q [] = refl
  filter-filter p q (x ∷ xs) = ground (arith, filter-filter p q xs)

  -- To filter after a map is to map after a filter, if the tests agree on the members and the maps on
  -- those that pass.
  pub filter-map :
      (p q : A → Bool) (f g : A → A) (xs : List A)
      → All (λ x. (p (f x) ≡ q x) × (q x ≡ true → f x ≡ g x)) xs
      → filter p (map f xs) ≡ map g (filter q xs)
  filter-map p q f g [] h = refl
  filter-map p q f g (x ∷ xs) h = elim (Bool-cases (q x)) [
    | inl e ↦ rw (h.0.0, e, h.0.1 e) (ap (λ ys. g x ∷ ys) (filter-map p q f g xs h.1))
    | inr e ↦ rw (h.0.0, e) (filter-map p q f g xs h.1)
  ]

  pub any-mem : (p : A → Bool) (xs : List A) {x : A} → Memᴰ x xs → p x ≡ true → any p xs ≡ true
  any-mem p [] m h = elim m [ ]
  any-mem p (y ∷ ys) (Memᴰ.head e) h = rw (sym e, h) refl
  any-mem p (y ∷ ys) (Memᴰ.tail m) h = ground (arith, any-mem p ys m h)

  pub any-none : (p : A → Bool) (xs : List A) → All (λ x. p x ≡ false) xs → any p xs ≡ false
  any-none p [] h = refl
  any-none p (x ∷ xs) h = ground (arith, any-none p xs h.1)

  pub mem-filter :
      (p : A → Bool) (xs : List A) {x : A} → Memᴰ x xs → p x ≡ true → Memᴰ x (filter p xs)
  mem-filter p [] m h = m
  mem-filter p (y ∷ ys) (Memᴰ.head e) h = rw (sym e, h) (Memᴰ.head refl)
  mem-filter p (y ∷ ys) (Memᴰ.tail m) h = elim (Bool-cases (p y)) [
    | inl e ↦ rw e (Memᴰ.tail (mem-filter p ys m h))
    | inr e ↦ rw e (mem-filter p ys m h)
  ]

  pub filter-mem :
      (p : A → Bool) (xs : List A) {x : A} → Memᴰ x (filter p xs) → Memᴰ x xs × (p x ≡ true)
  filter-mem p [] m = elim m [ ]
  filter-mem p (y ∷ ys) {x} m = elim (Bool-cases (p y)) [
    | inl e ↦ elim (rw e at m) [
      | Memᴰ.head q ↦ (Memᴰ.head q, ap p q ∙ e)
      | Memᴰ.tail n ↦ let (k, g) = filter-mem p ys n in (Memᴰ.tail k, g)
    ]
    | inr e ↦ let (n, h) = filter-mem p ys (rw e at m) in (Memᴰ.tail n, h)
  ]

module _ {ℓ κ} {A : Type ℓ} (R : A → A → Type κ) where
  pub Pairwise-filter : (p : A → Bool) (xs : List A) → Pairwise R xs → Pairwise R (filter p xs)
  Pairwise-filter p [] h = tt
  Pairwise-filter p (x ∷ xs) h = elim (Bool-cases (p x)) [
    | inl e ↦ rw e (All-filter (R x) p xs h.0, Pairwise-filter p xs h.1)
    | inr e ↦ rw e (Pairwise-filter p xs h.1)
  ]

module _ {ℓ κ} {A : Type ℓ} {B : Type κ} (f : A → B) where
  -- What holds of the images.
  pub All-image {μ ν} :
      (P : A → Type μ) (Q : B → Type ν) (xs : List A)
      → ((x : A) → P x → Q (f x))
      → All P xs
      → All Q (map f xs)
  All-image P Q [] g h = tt
  All-image P Q (x ∷ xs) g h = (g x h.0, All-image P Q xs g h.1)

  pub Pairwise-image {μ ν} :
      (R : A → A → Type μ) (S : B → B → Type ν) (xs : List A)
      → ((x y : A) → R x y → S (f x) (f y))
      → Pairwise R xs
      → Pairwise S (map f xs)
  Pairwise-image R S [] g h = tt
  Pairwise-image R S (x ∷ xs) g h =
      (All-image (R x) (S (f x)) xs (g x) h.0, Pairwise-image R S xs g h.1)
