-- ===== src/S3Location/Tests.antt =====
-- Locations as the uploads record them.
use Prim.Native.String
use oddk.Base.{◌≡◌, ◌≢◌, ◌↔◌, refl, none, some, String}
use oddk.S3Location.{
  s3_uri, cut_prefix, cut_slash, parse_s3_location, parse_remote_s3_location, relative_key,
}
use oddk.S3Location.RoundTrip.{NoSlash, parse_s3_location_iff}
use oddk.S3Location.Addresses.{addressed, addressed_iff}

abbrev written : String
written = "s3://acme/oddk/app/1.tar"

abbrev bucket : String
bucket = "acme"

abbrev key : String
key = "oddk/app/1.tar"

cut_slash-first : cut_slash "acme/oddk/1" ≡ some ("acme", "oddk/1")
unfolding cut_slash
cut_slash-first = refl

cut_prefix-other : cut_prefix "s3://" "s3:/x" ≡ none
unfolding cut_prefix
cut_prefix-other = refl

parse_remote_s3_location-ours : parse_remote_s3_location written "acme" ≡ some "oddk/app/1.tar"
unfolding parse_remote_s3_location
parse_remote_s3_location-ours = refl

parse_remote_s3_location-other : parse_remote_s3_location written "other" ≡ none
unfolding parse_remote_s3_location
parse_remote_s3_location-other = refl

relative_key-ours : relative_key "oddk/" "oddk/app/1.tar" ≡ "app/1.tar"
unfolding relative_key
relative_key-ours = refl

parse_s3_location_iff_example :
    (parse_s3_location written ≡ some (bucket, key))
    ↔ ((written ≡ s3_uri bucket key) × NoSlash bucket × (bucket ≢ "") × (key ≢ ""))
parse_s3_location_iff_example = parse_s3_location_iff written bucket key

-- The object of a snapshot that was stored before the bucket path became "v2/".
addressed_iff_example :
    (addressed "v2/" "oddk/app/1.tar" ≡ "oddk/app/1.tar")
    ↔ ((rest : String) × ("oddk/app/1.tar" ≡ String.◌++◌ "v2/" rest))
addressed_iff_example = addressed_iff "v2/" "oddk/app/1.tar"
