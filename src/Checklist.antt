-- ===== src/Checklist.antt =====
-- internal/operations/checklist.go: the audit of the snapshots, collectSnapshots, and an instance's
-- coverage. What the tables answer is an argument, `none` for an error of the read.
pub mod Newest
mod Tests
use oddk.Base.{
  ℕ, suc, ◌-◌, ◌*◌, Bool, true, false, not, ◌&&◌, ◌||◌, Option, none, some, List, [], ◌∷◌, String,
  str_eq, ◌==◌, ltb, map, filter, length, count_of, if◌then◌else◌, Result, ok, err,
}
use oddk.Disk.{Disk, Stat, found}
use oddk.CronStore.{CronPlan}
use oddk.CronStore as Cron
use oddk.Retention.{RecordInstance}
use oddk.Snapshots.{Record, StoreError, local_path, remote_path, list}
use oddk.Snapshots.Plan
use oddk.Snapshots.Plan.{is_paused}

abbrev exists : Stat → Bool
exists found = true
exists _ = false

abbrev pub has_local_file : Disk → Record → Bool
has_local_file disk r = not (str_eq (local_path r) "") && exists (disk (local_path r))

abbrev pub has_remote : Record → Bool
has_remote r = not (str_eq (remote_path r) "")

pub data Location : Type 0 where
  local_and_s3 s3 local none_left : Location

unfoldable pub location_label : Bool → Bool → Location
location_label true true = local_and_s3
location_label false true = s3
location_label true false = local
location_label false false = none_left

-- ChecklistSnapCopy
pub record Copies : Type 0 where
  pub local_and_remote : ℕ
  pub remote_only : ℕ
  pub local_only : ℕ
  pub without : ℕ

abbrev pub counted : Location → Copies → Copies
counted local_and_s3 c = record c { local_and_remote = suc c.local_and_remote }
counted s3 c = record c { remote_only = suc c.remote_only }
counted local c = record c { local_only = suc c.local_only }
counted none_left c = record c { without = suc c.without }

-- The first loop over the records.
pub count_copies : Disk → List Record → Copies → Copies
unfolding location_label
count_copies disk [] c = c
count_copies disk (r ∷ rest) c =
    count_copies disk rest (counted (location_label (has_local_file disk r) (has_remote r)) c)

-- Complete, and with a copy that is left.
abbrev pub is_restorable : Disk → Record → Bool
is_restorable disk r = str_eq r.status "completed" && (has_local_file disk r || has_remote r)

-- The second loop.
unfoldable pub newest_restorable : Disk → List Record → Option Record
newest_restorable disk [] = none
newest_restorable disk (r ∷ rest) =
    let later = newest_restorable disk rest in if is_restorable disk r then some r else later

-- ChecklistArchive, without size and comment.
pub record Archive : Type 0 where
  pub id : ℕ
  pub timestamp : ℕ
  pub location : Location

abbrev pub archive_of : Disk → Option Record → Option Archive
archive_of disk none = none
archive_of disk (some r) = some (record {
  id = r.id;
  timestamp = r.created_at;
  location = location_label (has_local_file disk r) (has_remote r);
})

-- The seconds of an interval; one that is not positive counts as a day.
abbrev pub interval_seconds : ℕ → ℕ
interval_seconds hours = if hours == 0 then 24 * 3600 else hours * 3600

-- time.Since is not positive for an instant after `now`.
abbrev pub is_stale : ℕ → Option Plan.Plan → Option Record → Bool
is_stale now none newest = false
is_stale now (some p) none = true
is_stale now (some p) (some r) = ltb (2 * interval_seconds p.interval_hours) (now - r.created_at)

-- ChecklistSnapshots, without the texts.
pub record Summary : Type 0 where
  pub scheduled : Bool
  pub utc_hour : ℕ
  pub interval_hours : ℕ
  pub paused : Bool
  pub paused_backup_crons : List String
  pub total : ℕ
  pub copies : Copies
  pub last_snapshot : Option Archive
  pub stale : Bool

abbrev pub no_copies : Copies
no_copies = record { local_and_remote = 0; remote_only = 0; local_only = 0; without = 0 }

abbrev pub plan_hour : Option Plan.Plan → ℕ
plan_hour none = 0
plan_hour (some p) = p.utc_hour

abbrev pub plan_interval : Option Plan.Plan → ℕ
plan_interval none = 0
plan_interval (some p) = p.interval_hours

abbrev pub plan_paused : Option Plan.Plan → Bool
plan_paused none = false
plan_paused (some p) = is_paused p

abbrev pub summary_of : ℕ → Disk → Option Plan.Plan → List CronPlan → List Record → Summary
summary_of now disk plan paused_plans records = record {
  scheduled = Cron.is_some plan;
  utc_hour = plan_hour plan;
  interval_hours = plan_interval plan;
  paused = plan_paused plan;
  paused_backup_crons = map (λ p. p.instance_name) paused_plans;
  total = length records;
  copies = count_copies disk records no_copies;
  last_snapshot = archive_of disk (newest_restorable disk records);
  stale = is_stale now plan (newest_restorable disk records);
}

abbrev pub audited :
    ℕ
    → Disk
    → Option Plan.Plan
    → List CronPlan
    → Result StoreError (List Record)
    → Option (Summary × Option Record)
audited now disk plan paused_plans (err e) = none
audited now disk plan paused_plans (ok records) =
    some (summary_of now disk plan paused_plans records, newest_restorable disk records)

-- The summary, and the newest record that can be restored. The arguments are the plan, the paused
-- schedules, whether the catalogue cannot be read, and its rows.
unfoldable pub collect_snapshots :
    ℕ
    → Disk
    → Option (Option Plan.Plan)
    → Option (List CronPlan)
    → Bool
    → List Record
    → Option (Summary × Option Record)
collect_snapshots now disk none paused_plans fails rows = none
collect_snapshots now disk (some plan) none fails rows = none
collect_snapshots now disk (some plan) (some paused_plans) fails rows =
    audited now disk plan paused_plans (list fails rows)

-- ChecklistCoverage, whose reference to the archive is the summary's.
pub data Coverage : Type 0 where
  covered config_only not_captured no_snapshots : Coverage

unfoldable pub entry_coverage : List RecordInstance → String → Coverage
entry_coverage [] name = not_captured
entry_coverage (e ∷ rest) name =
    let later = entry_coverage rest name in
    if str_eq e.name name then (if e.has_data then covered else config_only) else later

abbrev pub listed_coverage : Option (List RecordInstance) → String → Coverage
listed_coverage none name = covered
listed_coverage (some entries) name = entry_coverage entries name

unfoldable pub snapshot_coverage : Option Record → String → ℕ → Coverage
unfolding entry_coverage
snapshot_coverage none name created_at = no_snapshots
snapshot_coverage (some r) name created_at =
    if ltb r.created_at created_at then not_captured else listed_coverage r.instances name
