-- ===== src/S3Location/RoundTrip.antt =====
-- A location that was written is read back.
use Prim.Native.Char.{Char, code}
use Prim.Native.String
use text.Mathlib.TextLemmas.{nil-append, cons-append}
use text.Mathlib.TextEquality.{Char-path}
use oddk.Base.{
  ◌≡◌, ◌≢◌, ◌↔◌, refl, sym, ap, ap₂, subst, some-injective, ◌∙◌, some, String, ◌==◌, ==→eq, arith,
  Bool-cases, Option-cases, inl, inr, eq_iff,
}
use oddk.S3Location.{
  cut_prefix, cut_slash, slash, non_empty, bucket_and_key, parse_s3_location, s3_uri,
}

abbrev pub NoSlash : String → Type 0
NoSlash String.[] = Unit
NoSlash (String.◌∷◌ c s) = (code c ≢ slash) × NoSlash s

pub cut_prefix-append : (p s : String) → cut_prefix p (String.◌++◌ p s) ≡ some s
unfolding cut_prefix
cut_prefix-append String.[] s = rw nil-append refl
cut_prefix-append (String.◌∷◌ c p) s = rw cons-append (ground (arith, cut_prefix-append p s))

-- What is cut off is what stood there.
pub cut_prefix-eq : (p s rest : String) → cut_prefix p s ≡ some rest → s ≡ String.◌++◌ p rest
unfolding cut_prefix
cut_prefix-eq String.[] s rest h = some-injective h ∙ sym (nil-append rest)
cut_prefix-eq (String.◌∷◌ c p) String.[] rest h = ground arith
cut_prefix-eq (String.◌∷◌ c p) (String.◌∷◌ d s) rest h = elim (Bool-cases (code c == code d)) [
  | inl e ↦
      let same = Char-path c d (==→eq (code c) (code d) e) in
      let tail = cut_prefix-eq p s rest (rw e at h) in
      ap₂ (λ x t. String.◌∷◌ x t) (sym same) tail ∙ sym (cons-append c p rest)
  | inr e ↦ absurd (ground arith)
]

cut_slash-append :
    (b k : String) → NoSlash b → cut_slash (String.◌++◌ b (String.◌∷◌ "/" k)) ≡ some (b, k)
unfolding cut_slash
cut_slash-append String.[] k h = rw nil-append refl
cut_slash-append (String.◌∷◌ c b) k h = rw cons-append (ground (arith, cut_slash-append b k h.1))

first :
    (c : Char) (s b k : String)
    → c ≡ "/"
    → "" ≡ b
    → s ≡ k
    → NoSlash b × (String.◌∷◌ c s ≡ String.◌++◌ b (String.◌∷◌ "/" k))
first c s b k slashed empty same =
    subst (λ b. NoSlash b × (String.◌∷◌ c s ≡ String.◌++◌ b (String.◌∷◌ "/" k))) empty
      (tt, ap₂ (λ x t. String.◌∷◌ x t) slashed same ∙ sym (nil-append (String.◌∷◌ "/" k)))

longer :
    (c : Char) (s b' k' b k : String)
    → code c ≢ slash
    → NoSlash b'
    → s ≡ String.◌++◌ b' (String.◌∷◌ "/" k')
    → String.◌∷◌ c b' ≡ b
    → k' ≡ k
    → NoSlash b × (String.◌∷◌ c s ≡ String.◌++◌ b (String.◌∷◌ "/" k))
longer c s b' k' b k other clean split bucket key =
    subst (λ b. NoSlash b × (String.◌∷◌ c s ≡ String.◌++◌ b (String.◌∷◌ "/" k))) bucket
      (
        (other, clean),
        ap (λ t. String.◌∷◌ c t) (split ∙ ap (λ k. String.◌++◌ b' (String.◌∷◌ "/" k)) key)
            ∙ sym (cons-append c b' (String.◌∷◌ "/" k)),
      )

cut_slash-eq :
    (s b k : String)
    → cut_slash s ≡ some (b, k)
    → NoSlash b × (s ≡ String.◌++◌ b (String.◌∷◌ "/" k))
unfolding cut_slash
cut_slash-eq String.[] b k h = ground arith
cut_slash-eq (String.◌∷◌ c s) b k h = elim (Bool-cases (code c == slash)) [
  | inl e ↦
      let here = some-injective (rw e at h) in
      first c s b k (Char-path c "/" (==→eq (code c) slash e)) (ap (λ p. p.0) here)
        (ap (λ p. p.1) here)
  | inr e ↦ elim (Option-cases (cut_slash s)) [
    | inl n ↦ absurd (ground arith)
    | inr ((b', k'), q) ↦
        let shown = some-injective (rw (e, q) at h) in
        let (clean, split) = cut_slash-eq s b' k' q in
        longer c s b' k' b k (λ slashed. ground arith) clean split (ap (λ p. p.0) shown)
          (ap (λ p. p.1) shown)
  ]
]

-- The test after the cut.
non_empty_iff :
    (b k bucket key : String)
    → (non_empty (b, k) ≡ some (bucket, key))
      ↔ ((b ≡ bucket) × (k ≡ key) × (bucket ≢ "") × (key ≢ ""))
non_empty_iff b k bucket key =
    (λ h. ground (arith, eq_iff b "", eq_iff k ""), λ h. ground (arith, eq_iff b "", eq_iff k ""))

-- Exactly the locations that are written from a bucket without a slash and a key, both not empty,
-- parse, and they parse to that bucket and key.
pub parse_s3_location_iff :
    (location bucket key : String)
    → (parse_s3_location location ≡ some (bucket, key))
      ↔ ((location ≡ s3_uri bucket key) × NoSlash bucket × (bucket ≢ "") × (key ≢ ""))
unfolding parse_s3_location
parse_s3_location_iff location bucket key = (to, from)
  where
    to :
        bucket_and_key (cut_prefix "s3://" location) ≡ some (bucket, key)
        → (location ≡ s3_uri bucket key) × NoSlash bucket × (bucket ≢ "") × (key ≢ "")
    to h = elim (Option-cases (cut_prefix "s3://" location)) [
      | inl n ↦ absurd (ground arith)
      | inr (rest, q) ↦ elim (Option-cases (cut_slash rest)) [
        | inl n ↦ absurd (ground arith)
        | inr ((b, k), q') ↦
            let (same_b, same_k, has_b, has_k) =
              (non_empty_iff b k bucket key).0 (rw (q, q') at h) in
            let (clean, split) = cut_slash-eq rest b k q' in
            (
              cut_prefix-eq "s3://" location rest q
                  ∙ ap (λ r. String.◌++◌ "s3://" r)
                      (split ∙ ap₂ (λ b k. String.◌++◌ b (String.◌∷◌ "/" k)) same_b same_k),
              subst NoSlash same_b clean,
              has_b,
              has_k,
            )
      ]
    ]

    from :
        (location ≡ s3_uri bucket key) × NoSlash bucket × (bucket ≢ "") × (key ≢ "")
        → bucket_and_key (cut_prefix "s3://" location) ≡ some (bucket, key)
    from h =
        rw
          (
            h.0,
            cut_prefix-append "s3://" (String.◌++◌ bucket (String.◌∷◌ "/" key)),
            cut_slash-append bucket key h.1,
          )
          ((non_empty_iff bucket key bucket key).1 (refl, refl, h.2, h.3))
