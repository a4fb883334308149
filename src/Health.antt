-- ===== src/Health.antt =====
-- internal/store/health: the table of health records. Rows are kept in insertion order with their
-- AUTOINCREMENT ids; `refused` is a statement that the database does not execute.
pub mod Honest
mod Tests
use Prim.Native.String.{◌++◌}
use oddk.Base.{
  ℕ, ◌-◌, Bool, true, false, not, ◌&&◌, Option, none, some, List, [], ◌∷◌, String, str_eq, ◌==◌,
  ltb, leb, map, filter, take, if◌then◌else◌,
}

pub record HealthRecord : Type 0 where
  pub id : ℕ
  pub ts_unix : ℕ
  pub in_progress : Bool
  pub healthy_all : Bool
  pub healthy_host : Bool
  pub healthy_instances : String
  pub broken_instances : String
  pub fail_details : String

-- `strings.Join(names, ",")`
pub join : List String → String
join [] = ""
join (name ∷ []) = name
join (name ∷ next ∷ rest) = name ++ "," ++ join (next ∷ rest)

abbrev pub is_empty {ℓ} : {A : Type ℓ} → List A → Bool
is_empty [] = true
is_empty (x ∷ xs) = false

abbrev pub append_row : List HealthRecord → HealthRecord → List HealthRecord
append_row [] r = r ∷ []
append_row (s ∷ rows) r = s ∷ append_row rows r

-- A check starts as optimistic and in progress. `id` is the next id of the table.
abbrev pub fresh_record : ℕ → ℕ → HealthRecord
fresh_record now id = record {
  id = id;
  ts_unix = now;
  in_progress = true;
  healthy_all = true;
  healthy_host = true;
  healthy_instances = "";
  broken_instances = "";
  fail_details = "";
}

pub start_health_check :
    Bool → ℕ → ℕ → List HealthRecord → Option (HealthRecord × List HealthRecord)
start_health_check refused now id rows =
    if refused then none else some (fresh_record now id, append_row rows (fresh_record now id))

abbrev pub at_id : ℕ → (HealthRecord → HealthRecord) → HealthRecord → HealthRecord
at_id id f r = if r.id == id then f r else r

pub update_health_check :
    Bool
    → ℕ
    → Bool
    → List String
    → List String
    → String
    → List HealthRecord
    → Option (List HealthRecord)
unfolding join
update_health_check refused id healthy_host healthy broken details rows =
    let result = λ (r : HealthRecord). record r {
      in_progress = false;
      healthy_all = healthy_host && is_empty broken;
      healthy_host = healthy_host;
      healthy_instances = join healthy;
      broken_instances = join broken;
      fail_details = details;
    } in
    if refused then none else some (map (at_id id result) rows)

pub interrupt : HealthRecord → HealthRecord
interrupt r =
    if r.in_progress
    then record r {
      in_progress = false;
      healthy_all = false;
      fail_details = if str_eq r.fail_details "" then "interrupted" else r.fail_details;
    }
    else r

-- At startup every check in progress is from a process that died.
pub reset_in_progress_records : Bool → List HealthRecord → Option (List HealthRecord)
unfolding interrupt
reset_in_progress_records refused rows = if refused then none else some (map interrupt rows)

-- `olderThan` in seconds.
pub cleanup_old_records : Bool → ℕ → ℕ → List HealthRecord → Option (List HealthRecord)
cleanup_old_records refused now older_than rows =
    if refused then none else some (filter (λ r. not (ltb r.ts_unix (now - older_than))) rows)

-- ORDER BY ts_unix DESC
abbrev pub insert_latest : HealthRecord → List HealthRecord → List HealthRecord
insert_latest r [] = r ∷ []
insert_latest r (s ∷ rest) =
    let later = insert_latest r rest in if leb s.ts_unix r.ts_unix then r ∷ s ∷ rest else s ∷ later

pub latest_first : List HealthRecord → List HealthRecord
latest_first [] = []
latest_first (r ∷ rest) = insert_latest r (latest_first rest)

abbrev first_of_list : List HealthRecord → Option HealthRecord
first_of_list [] = none
first_of_list (r ∷ rest) = some r

unfoldable pub get_latest_health_record : List HealthRecord → Option HealthRecord
unfolding latest_first
get_latest_health_record rows = first_of_list (latest_first rows)

unfoldable pub get_health_history : ℕ → List HealthRecord → List HealthRecord
unfolding latest_first
get_health_history limit rows = take limit (latest_first rows)

-- Only completed checks count for the notification thresholds.
unfoldable pub get_recent_health_records : ℕ → List HealthRecord → List HealthRecord
unfolding latest_first
get_recent_health_records limit rows =
    take limit (latest_first (filter (λ r. not r.in_progress) rows))
