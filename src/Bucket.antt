-- ===== src/Bucket.antt =====
-- The offsite bucket as retention sees it: what FileExists and DeleteFile of
-- internal/services/s3/client.go answer, and `remoteArchivePresent` of
-- internal/operations/retention.go.
pub mod Keys
use oddk.Base.{Bool, true, false, not, Option, none, some, String, str_eq, if◌then◌else◌}
use oddk.S3Location.{parse_s3_location, relative_key, object_key}

-- The keys that hold an object.
abbrev pub Objects : Type 0
Objects = String → Bool

-- The configured bucket and bucket path, and the keys for which S3 refuses a request.
pub record Remote : Type 0 where
  pub bucket : String
  pub bucket_path : String
  pub head_fails : String → Bool
  pub delete_fails : String → Bool

abbrev in_bucket : Remote → Option (String × String) → Option String
in_bucket remote none = none
in_bucket remote (some (bucket, key)) =
    if str_eq bucket remote.bucket
    then some (object_key remote.bucket_path (relative_key remote.bucket_path key))
    else none

-- The object that a location leads to; none for one that does not parse or lies in another bucket,
-- which neither the check nor the deletion touches.
unfoldable pub our_key : Remote → String → Option String
our_key remote location = in_bucket remote (parse_s3_location location)

abbrev pub answered : Remote → Objects → Option String → Bool
answered remote objects none = true
answered remote objects (some key) = if remote.head_fails key then true else objects key

-- Absent only if the bucket says so.
pub remote_archive_present : Remote → Objects → String → Bool
unfolding our_key
remote_archive_present remote objects location = answered remote objects (our_key remote location)

abbrev pub without : String → Objects → Objects
without key objects k = if str_eq key k then false else objects k

-- S3 answers the deletion of a key that holds nothing as it does any other.
pub delete_file : Remote → String → Objects → Bool × Objects
delete_file remote key objects =
    if remote.delete_fails key then (false, objects) else (true, without key objects)
