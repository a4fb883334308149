-- ===== src/Snapshots.antt =====
-- internal/store/snapshot: the snapshot catalogue (table snapshot_history) and the deployment-wide
-- plan. The table is a list of rows; a query that can fail takes the failure as an argument.
pub mod Located
pub mod Plan
pub mod Schedule
pub mod Repoint
mod Tests
use oddk.Base.{
  ℕ, Bool, true, false, not, Option, none, some, List, [], ◌∷◌, String, str_eq, ◌==◌, leb, map,
  filter, if◌then◌else◌, Result, ok, err,
}
use oddk.Newest.{newest_by}
use oddk.Retention.{RecordInstance}

-- A NULL column is `none`. Columns that no modelled code reads are left out.
pub record Record : Type 0 where
  pub id : ℕ
  pub created_at : ℕ
  pub status : String
  pub local_location : Option String
  pub remote_location : Option String
  pub instances : Option (List RecordInstance)

abbrev pub flatten_location : Option String → String
flatten_location none = ""
flatten_location (some s) = s

-- The fields that `flatten` fills.
abbrev pub local_path : Record → String
local_path r = flatten_location r.local_location

abbrev pub remote_path : Record → String
remote_path r = flatten_location r.remote_location

pub data StoreError : Type 0 where
  database no_row no_other_copy : StoreError

-- ORDER BY created_at DESC
abbrev pub newest_first : List Record → List Record
newest_first = newest_by (λ r. r.created_at)

unfoldable pub list : Bool → List Record → Result StoreError (List Record)
list fails rows = if fails then err database else ok (newest_first rows)

unfoldable pub get : List Record → ℕ → Option Record
get [] k = none
get (r ∷ rest) k = if r.id == k then some r else get rest k

unfoldable pub delete : (ℕ → Bool) → List Record → ℕ → Result StoreError (List Record)
delete fails rows k = if fails k then err database else ok (filter (λ r. not (r.id == k)) rows)

abbrev pub has_location : Option String → Bool
has_location none = false
has_location (some s) = not (str_eq s "")

abbrev pub update_row : ℕ → (Record → Record) → List Record → List Record
update_row k f rows = map (λ r. if r.id == k then f r else r) rows

-- Clearing the last location is refused before the schema's CHECK would.
pub clear_local_location : (ℕ → Bool) → List Record → ℕ → Result StoreError (List Record)
unfolding get
clear_local_location fails rows k = if fails k then err database else elim (get rows k) [
  | none ↦ err no_row
  | some r ↦
      if has_location r.remote_location
      then ok (update_row k (λ s. record s { local_location = none }) rows)
      else err no_other_copy
]

pub clear_remote_location : (ℕ → Bool) → List Record → ℕ → Result StoreError (List Record)
unfolding get
clear_remote_location fails rows k = if fails k then err database else elim (get rows k) [
  | none ↦ err no_row
  | some r ↦
      if has_location r.local_location
      then ok (update_row k (λ s. record s { remote_location = none }) rows)
      else err no_other_copy
]
