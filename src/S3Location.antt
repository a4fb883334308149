-- ===== src/S3Location.antt =====
-- internal/operations/s3_location.go, and the key handling of internal/services/s3/client.go. A
-- location is a text; a failed parse is `none`, its message left out.
pub mod Addresses
pub mod RoundTrip
mod Tests
use Prim.Native.Char.{Char, code}
use Prim.Native.String
use oddk.Base.{
  ℕ, Bool, true, false, not, ◌||◌, Option, none, some, String, str_eq, ◌==◌, if◌then◌else◌,
}

-- strings.CutPrefix, the prefix first.
unfoldable pub cut_prefix : String → String → Option String
cut_prefix String.[] s = some s
cut_prefix (String.◌∷◌ c prefix) String.[] = none
cut_prefix (String.◌∷◌ c prefix) (String.◌∷◌ d s) =
    let rest = cut_prefix prefix s in if code c == code d then rest else none

abbrev pub slash : ℕ
slash = b'/'

abbrev before_with : Char → Option (String × String) → Option (String × String)
before_with c none = none
before_with c (some (before, after)) = some (String.◌∷◌ c before, after)

-- strings.Cut at the first slash.
unfoldable pub cut_slash : String → Option (String × String)
cut_slash String.[] = none
cut_slash (String.◌∷◌ c s) =
    let rest = cut_slash s in if code c == slash then some ("", s) else before_with c rest

abbrev pub non_empty : String × String → Option (String × String)
non_empty (bucket, key) = if str_eq bucket "" || str_eq key "" then none else some (bucket, key)

abbrev pub checked : Option (String × String) → Option (String × String)
checked none = none
checked (some p) = non_empty p

abbrev pub bucket_and_key : Option String → Option (String × String)
bucket_and_key none = none
bucket_and_key (some rest) = checked (cut_slash rest)

unfoldable pub parse_s3_location : String → Option (String × String)
unfolding cut_prefix cut_slash
parse_s3_location location = bucket_and_key (cut_prefix "s3://" location)

-- fmt.Sprintf("s3://%s/%s", bucket, key), as the uploads record it.
abbrev pub s3_uri : String → String → String
s3_uri bucket key = String.◌++◌ "s3://" (String.◌++◌ bucket (String.◌∷◌ "/" key))

-- The key of a location that lies in the configured bucket.
pub parse_remote_s3_location : String → String → Option String
unfolding parse_s3_location
parse_remote_s3_location location configured_bucket = elim (parse_s3_location location) [
  | none ↦ none
  | some (bucket, key) ↦ if str_eq bucket configured_bucket then some key else none
]

abbrev or_whole : String → Option String → String
or_whole full_key none = full_key
or_whole full_key (some trimmed) = trimmed

-- The receiver's field bucketPath first.
unfoldable pub relative_key : String → String → String
unfolding cut_prefix
relative_key bucket_path full_key =
    if str_eq bucket_path "" then full_key else or_whole full_key (cut_prefix bucket_path full_key)

-- `c.bucketPath + key`: the object that FileExists and DeleteFile address.
abbrev pub object_key : String → String → String
object_key bucket_path key = String.◌++◌ bucket_path key
