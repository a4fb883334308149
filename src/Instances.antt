-- ===== src/Instances.antt =====
-- internal/store/instances: the instance table (rdbms_instances). A query that the database
-- refuses is an argument of the operation; `now` is the clock at the call.
pub mod Status
pub mod Rows
pub mod Sets
use Status.{InstanceStatus, creating}
use oddk.Base.{
  ℕ, Bool, true, false, not, Option, none, some, List, [], ◌∷◌, ◌++◌, String, str_eq, ◌==◌, map,
  any, filter, if◌then◌else◌, Result, ok, err, count_of, ltb,
}

pub record Instance : Type 0 where
  pub name : String
  pub port : ℕ
  pub version : String
  pub status : InstanceStatus
  pub container_id : String
  pub password : String
  pub cpu_cores : ℕ
  pub ram_mb : ℕ
  pub parameter_group : String
  pub image : String
  pub created_at : ℕ
  pub updated_at : ℕ

pub data InstanceError : Type 0 where
  database name_taken not_found : InstanceError

-- The table after a write of which a refusal is only logged.
abbrev pub marked : List Instance → Result InstanceError (List Instance) → List Instance
marked rows (err e) = rows
marked rows (ok after) = after

-- INSERT with the UNIQUE constraint on the name; a new row is `creating`.
pub create : Bool → ℕ → Instance → List Instance → Result InstanceError (List Instance)
create refused now fresh rows =
    if refused
    then err database
    else if any (λ r. str_eq r.name fresh.name) rows
    then err name_taken
    else ok (rows ++ record fresh { status = creating; created_at = now; updated_at = now } ∷ [])

abbrev pub find : List Instance → (Instance → Bool) → Option Instance
find [] p = none
find (r ∷ rows) p = if p r then some r else find rows p

abbrev found_or : Option Instance → Result InstanceError Instance
found_or none = err not_found
found_or (some r) = ok r

unfoldable pub get : Bool → String → List Instance → Result InstanceError Instance
get refused name rows =
    if refused then err database else found_or (find rows (λ r. str_eq r.name name))

-- UPDATE … WHERE name = ?, and the check of the rows affected.
pub update_row :
    Bool → String → (Instance → Instance) → List Instance → Result InstanceError (List Instance)
update_row refused name f rows =
    if refused
    then err database
    else if any (λ r. str_eq r.name name) rows
    then ok (map (λ r. if str_eq r.name name then f r else r) rows)
    else err not_found

module _ (refused : Bool) (now : ℕ) (name : String) where
  unfoldable pub update_status :
      InstanceStatus → List Instance → Result InstanceError (List Instance)
  unfolding update_row
  update_status status =
      update_row refused name (λ r. record r { status = status; updated_at = now })

  unfoldable pub update_container_id : String → List Instance → Result InstanceError (List Instance)
  unfolding update_row
  update_container_id container_id =
      update_row refused name (λ r. record r { container_id = container_id; updated_at = now })

  unfoldable pub update_password : String → List Instance → Result InstanceError (List Instance)
  unfolding update_row
  update_password encrypted =
      update_row refused name (λ r. record r { password = encrypted; updated_at = now })

  unfoldable pub update_image :
      String → String → List Instance → Result InstanceError (List Instance)
  unfolding update_row
  update_image image version =
      update_row refused name (λ r. record r { image = image; version = version; updated_at = now })

  unfoldable pub update_parameter_group :
      String → List Instance → Result InstanceError (List Instance)
  unfolding update_row
  update_parameter_group group =
      update_row refused name (λ r. record r { parameter_group = group; updated_at = now })

  unfoldable pub update_resources : ℕ → ℕ → ℕ → List Instance → Result InstanceError (List Instance)
  unfolding update_row
  update_resources port cpu_cores ram_mb =
      update_row refused name
        (λ r. record r { port = port; cpu_cores = cpu_cores; ram_mb = ram_mb; updated_at = now })

-- Unlike the updates, this one does not look at the rows affected.
unfoldable pub backdate_created_at :
    Bool → String → ℕ → List Instance → Result InstanceError (List Instance)
backdate_created_at refused name created_at rows =
    if refused
    then err database
    else ok (map (λ r. if str_eq r.name name then record r { created_at = created_at } else r) rows)

unfoldable pub delete : Bool → String → List Instance → Result InstanceError (List Instance)
delete refused name rows =
    if refused then err database else ok (filter (λ r. not (str_eq r.name name)) rows)

abbrev port_owner : Option Instance → Bool × String
port_owner none = (false, "")
port_owner (some r) = (true, r.name)

unfoldable pub is_port_in_use : Bool → ℕ → List Instance → Result InstanceError (Bool × String)
is_port_in_use refused port rows =
    if refused then err database else ok (port_owner (find rows (λ r. r.port == port)))

unfoldable pub is_name_in_use : Bool → String → List Instance → Result InstanceError Bool
is_name_in_use refused name rows =
    if refused then err database else ok (ltb 0 (count_of (λ r. str_eq r.name name) rows))
