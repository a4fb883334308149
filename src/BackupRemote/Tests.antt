-- ===== src/BackupRemote/Tests.antt =====
-- A pass over two offsite copies of one instance.
use oddk.Base.{
  ℕ, ◌*◌, ◌≤◌, min, ◌≡◌, ◌≢◌, refl, sym, ap, ◌∙◌, true, false, none, some, List, [], ◌∷◌, count_of,
  String, arith, ok, some-injective, eq_iff,
}
use oddk.Bucket.{Objects, Remote, our_key}
use oddk.Disk.{Disk, not_exist}
use oddk.Retention.{day}
use oddk.S3Location.{cut_prefix, cut_slash, parse_s3_location, relative_key}
use oddk.SnapshotRemote.{client, no_settings}
use oddk.Backups.{BackupRecord, Checked, Host, Faults, list_backups}
use oddk.BackupCleanup.{min_retained_backups}
use oddk.BackupRemote.{Run, deleted_key, start, run_remote_cleanup}
use oddk.BackupRemote.Turn.{in_bucket}
use oddk.BackupRemote.Whole.{OwnObjects, Untouched, limits, run_remote_cleanup-keeps}

abbrev offsite : Remote
offsite = record {
  bucket = "acme";
  bucket_path = "oddk/";
  head_fails = λ key. false;
  delete_fails = λ key. false;
}

abbrev host : Host
host = record { data_dir = "/data"; sizes = λ path. 64 }

abbrev no_faults : Faults
no_faults = record { read_fails = λ k. false; update_fails = λ k. false; delete_fails = λ k. false }

abbrev backup : ℕ → String → BackupRecord
backup id location = record {
  id = id;
  instance_name = "app";
  timestamp = id * day;
  size = 64;
  local_location = none;
  remote_location = some location;
  status = "completed";
  sha256 = none;
}

abbrev table : List BackupRecord
table = backup 1 "s3://acme/oddk/1" ∷ backup 2 "s3://acme/oddk/2" ∷ []

abbrev disk : Disk
disk path = not_exist

abbrev all_there : Objects
all_there key = true

-- An empty key passes here, where the check of presence refuses it.
deleted_key-empty : deleted_key offsite "s3://acme/" ≡ some "oddk/"
unfolding deleted_key cut_prefix cut_slash relative_key
deleted_key-empty = refl

our_key-empty : our_key offsite "s3://acme/" ≡ none
unfolding our_key parse_s3_location
our_key-empty = refl

run_remote_cleanup-no_settings :
    run_remote_cleanup "app" 0 no_settings none false host no_faults disk all_there table
    ≡ ok (start all_there table)
unfolding run_remote_cleanup
run_remote_cleanup-no_settings = refl

untouched :
    (a b : String) {x y : String}
    → deleted_key offsite a ≡ some x
    → our_key offsite b ≡ some y
    → x ≢ y
    → Untouched offsite (some a) (some b)
untouched a b ex ey h l m k el em d o = h (
    some-injective (sym ex ∙ ap (deleted_key offsite) (some-injective el) ∙ d)
    ∙ sym (some-injective (sym ey ∙ ap (our_key offsite) (some-injective em) ∙ o)))

table-OwnObjects : OwnObjects offsite table
unfolding our_key parse_s3_location relative_key deleted_key cut_prefix cut_slash
table-OwnObjects = (
  (
    (
      untouched "s3://acme/oddk/1" "s3://acme/oddk/2" refl refl
          (ground (arith, eq_iff "oddk/1" "oddk/2")),
      untouched "s3://acme/oddk/2" "s3://acme/oddk/1" refl refl
          (ground (arith, eq_iff "oddk/2" "oddk/1")),
    ),
    tt,
  ),
  (tt, tt),
)

run_remote_cleanup-keeps_example :
    (found : List Checked) × (after : List BackupRecord) × (run : Run) × (list_backups false
        no_faults host disk "app" table
      ≡ ok (found, after))
    × (run_remote_cleanup "app"
          (100 * day)
          (client offsite)
          (some 7)
          false
          host
          no_faults
          disk
          all_there
          table
        ≡ ok run)
    × (min min_retained_backups (
          count_of
            (in_bucket
              (limits "app" (100 * day) 7 offsite host no_faults disk all_there table)
              all_there)
            found)
        ≤ count_of
            (in_bucket
              (limits "app" (100 * day) 7 offsite host no_faults disk all_there table)
              run.objects)
            found)
run_remote_cleanup-keeps_example =
    run_remote_cleanup-keeps "app" (100 * day) 7 offsite host no_faults disk all_there table
      table-OwnObjects
