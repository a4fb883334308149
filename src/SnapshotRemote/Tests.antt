-- ===== src/SnapshotRemote/Tests.antt =====
-- A pass over three offsite copies, all past a window of seven days.
use oddk.Base.{
  ℕ, ◌*◌, ◌≤◌, ◌<◌, min, ◌≡◌, refl, sym, ◌∙◌, ◌≢◌, ◌⊎◌, some-injective, eq_iff, Bool, true, false,
  none, some, List, [], ◌∷◌, String, str_eq, arith, Memᴰ, ok, err,
}
use oddk.Bucket.{Objects, Remote, our_key}
use oddk.S3Location.{parse_s3_location, relative_key}
use oddk.Retention.{days_before, day}
use oddk.Snapshots.{Record, remote_path}
use oddk.SnapshotCleanup.{cleanup_days, no_plan, min_retained_snapshots}
use oddk.SnapshotRemote.{
  Run, client, client_error, settings_error, offsite_settings, start, run_remote_cleanup,
}
use oddk.SnapshotRemote.Apart.{OwnKeys}
use oddk.SnapshotRemote.Whole.{
  limits, in_bucket_count, run_remote_cleanup-floor, run_remote_cleanup-due,
}

abbrev offsite : Remote
offsite = record {
  bucket = "acme";
  bucket_path = "oddk/";
  head_fails = λ key. false;
  delete_fails = λ key. str_eq key "oddk/2";
}

abbrev snapshot : ℕ → ℕ → String → Record
snapshot id age location = record {
  id = id;
  created_at = age * day;
  status = "completed";
  local_location = none;
  remote_location = some location;
  instances = none;
}

abbrev table : List Record
table =
    snapshot 1 80 "s3://acme/oddk/1"
    ∷ snapshot 2 85 "s3://acme/oddk/2"
    ∷ snapshot 3 90 "s3://acme/oddk/3"
    ∷ []

abbrev all_there : Objects
all_there key = true

abbrev fine : ℕ → Bool
fine id = false

run_remote_cleanup-no_settings :
    run_remote_cleanup 0 settings_error no_plan false fine fine all_there table
    ≡ err offsite_settings
unfolding run_remote_cleanup
run_remote_cleanup-no_settings = refl

run_remote_cleanup-no_plan :
    run_remote_cleanup 0 client_error no_plan false fine fine all_there table
    ≡ ok (start all_there table)
unfolding run_remote_cleanup
run_remote_cleanup-no_plan = refl

our_key-first : our_key offsite "s3://acme/oddk/1" ≡ some "oddk/1"
unfolding our_key parse_s3_location relative_key
our_key-first = refl

table-OwnKeys : OwnKeys (limits (100 * day) 7 offsite fine fine all_there table) table
unfolding our_key parse_s3_location relative_key
table-OwnKeys = (
  (
    λ k. apart "oddk/1" "oddk/2" k (ground (arith, eq_iff "oddk/1" "oddk/2")),
    (λ k. apart "oddk/1" "oddk/3" k (ground (arith, eq_iff "oddk/1" "oddk/3")), tt),
  ),
  ((λ k. apart "oddk/2" "oddk/3" k (ground (arith, eq_iff "oddk/2" "oddk/3")), tt), (tt, tt)),
)
  where
    apart : (a b k : String) → a ≢ b → some a ≡ some k → some b ≢ some k
    apart a b k h ea eb = h (some-injective ea ∙ sym (some-injective eb))

run_remote_cleanup-floor_example :
    (run : Run) × (run_remote_cleanup
        (100 * day)
        (client offsite)
        (cleanup_days 7)
        false
        fine
        fine
        all_there
        table
      ≡ ok run)
    × (min min_retained_snapshots
          (in_bucket_count (100 * day) 7 offsite fine fine all_there table all_there)
        ≤ in_bucket_count (100 * day) 7 offsite fine fine all_there table run.objects)
run_remote_cleanup-floor_example =
    run_remote_cleanup-floor (100 * day) 7 offsite fine fine all_there table table-OwnKeys

run_remote_cleanup-due_example :
    (run : Run) × (run_remote_cleanup
        (100 * day)
        (client offsite)
        (cleanup_days 7)
        false
        fine
        fine
        all_there
        table
      ≡ ok run)
    × ((run.objects "oddk/1" ≡ true)
        ⊎ ((r : Record) × Memᴰ r table
            × (our_key offsite (remote_path r) ≡ some "oddk/1")
            × (r.created_at < days_before (100 * day) 7)))
run_remote_cleanup-due_example =
    run_remote_cleanup-due (100 * day) 7 offsite fine fine all_there table "oddk/1"
