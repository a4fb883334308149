-- ===== src/S3Location/Addresses.antt =====
-- The object that a stored key leads to, through a client with a bucket path.
use Prim.Native.String
use text.Mathlib.TextLemmas.{nil-append}
use oddk.Base.{◌≡◌, ◌↔◌, refl, sym, inl, inr, none, String, str_eq, str_eq→eq, Bool-cases}
use oddk.S3Location.{cut_prefix, relative_key, object_key}
use oddk.S3Location.RoundTrip.{cut_prefix-append}

-- The object that a client with this bucket path addresses for a stored key.
abbrev pub addressed : String → String → String
addressed bucket_path full_key = object_key bucket_path (relative_key bucket_path full_key)

-- A client addresses the object of a stored key exactly if the key starts with the client's bucket
-- path. Any other key, such as one that was stored under an earlier bucket path, is addressed below
-- the present path: at another object.
pub addressed_iff :
    (bucket_path full_key : String)
    → (addressed bucket_path full_key ≡ full_key)
      ↔ ((rest : String) × (full_key ≡ String.◌++◌ bucket_path rest))
unfolding relative_key
addressed_iff bucket_path full_key = (
  λ h. (relative_key bucket_path full_key, sym h),
  λ (rest, starts). elim (Bool-cases (str_eq bucket_path "")) [
    | inl e ↦ rw (e, str_eq→eq bucket_path "" e) (nil-append full_key)
    | inr e ↦ rw (e, starts, cut_prefix-append bucket_path rest) refl
  ],
)

-- A key that does not start with the bucket path is addressed below it.
pub addressed-foreign :
    (bucket_path full_key : String)
    → cut_prefix bucket_path full_key ≡ none
    → addressed bucket_path full_key ≡ String.◌++◌ bucket_path full_key
unfolding relative_key
addressed-foreign bucket_path full_key h = elim (Bool-cases (str_eq bucket_path "")) [
  | inl e ↦ rw e refl
  | inr e ↦ rw (e, h) refl
]
