-- ===== src/Parameters.antt =====
-- internal/store/parameters/sharedmem.go: the estimate of PostgreSQL's shared memory, and the refusal
-- of a parameter group that cannot fit. An int64 is its two's complement, a number below 2 ^ 64.
-- The text of the refusal is left out.
pub mod Text
pub mod Readings
pub mod Fits
mod Tests
use oddk.Base.{
  ℕ, ◌+◌, ◌-◌, ◌*◌, ◌/◌, ◌%◌, ◌^◌, Bool, true, false, not, ◌&&◌, Option, none, some, List, [], ◌∷◌,
  String, str_eq, ltb, leb, if◌then◌else◌,
}
use oddk.Parameters.Text.{trim_space, parse_non_negative, parse_amount}

pub record ResolvedParameter : Type 0 where
  pub name : String
  pub parameter_type : String
  pub value_type : String
  pub value : String

abbrev pub word : ℕ
word = 18446744073709551616

abbrev pub half : ℕ
half = 9223372036854775808

abbrev pub times : ℕ → ℕ → ℕ
times a b = (a * b) % word

abbrev pub plus : ℕ → ℕ → ℕ
plus a b = (a + b) % word

-- Division truncates towards 0.
abbrev pub over_32 : ℕ → ℕ
over_32 a = if ltb a half then a / 32 else (word - (word - a) / 32) % word

-- `a < b` on int64.
abbrev pub less : ℕ → ℕ → Bool
less a b = ltb ((a + half) % word) ((b + half) % word)

abbrev pub smaller : ℕ → ℕ → ℕ
smaller a b = if less a b then a else b

abbrev pub default_shared_buffers_bytes : ℕ
default_shared_buffers_bytes = 134217728

abbrev pub default_max_connections : ℕ
default_max_connections = 100

abbrev pub default_max_locks_per_transaction : ℕ
default_max_locks_per_transaction = 64

abbrev pub default_max_prepared_transactions : ℕ
default_max_prepared_transactions = 0

abbrev pub default_wal_buffers_cap_bytes : ℕ
default_wal_buffers_cap_bytes = 16777216

abbrev pub lock_object_bytes : ℕ
lock_object_bytes = 270

abbrev pub shared_memory_overhead_bytes : ℕ
shared_memory_overhead_bytes = 67108864

-- The value under a name in `byName`: of the parameters of the one type that is passed on, the last.
unfoldable pub by_name : String → List ResolvedParameter → Option String
by_name name [] = none
by_name name (p ∷ rest) =
    let later = by_name name rest in
    elim later [
      | some value ↦ some value
      | none ↦
          if str_eq p.parameter_type "postgres_cli_arg" && str_eq p.name name
          then some p.value
          else none
    ]

abbrev pub scaled : Option (ℕ × ℕ) → Option ℕ
scaled none = none
scaled (some (n, factor)) = some (times n factor)

-- `none` is an error.
pub parse_pg_mem_bytes : String → Option ℕ
unfolding parse_amount
parse_pg_mem_bytes value = scaled (parse_amount value)

-- A reading: the number, and whether it is exact.
abbrev pub parsed_or : ℕ → Option ℕ → ℕ × Bool
parsed_or default none = (default, false)
parsed_or default (some n) = (n, true)

abbrev pub read : (String → Option ℕ) → ℕ → Option String → ℕ × Bool
read parse default none = (default, true)
read parse default (some value) = parsed_or default (parse value)

-- -1 asks for the derived size.
abbrev pub read_wal_buffers : ℕ → Option String → ℕ × Bool
read_wal_buffers derived none = (derived, true)
read_wal_buffers derived (some value) =
    if str_eq (trim_space value) "-1"
    then (derived, true)
    else parsed_or derived (parse_pg_mem_bytes value)

abbrev pub max_parsed : List ResolvedParameter → String → ℕ → ℕ × Bool
max_parsed resolved name default = read parse_non_negative default (by_name name resolved)

-- The sum at the end, of shared_buffers, max_connections, max_locks_per_transaction,
-- max_prepared_transactions and wal_buffers, and whether all of them are exact.
abbrev pub estimate_of : ℕ × Bool → ℕ × Bool → ℕ × Bool → ℕ × Bool → ℕ × Bool → ℕ × Bool
estimate_of buffers conn locks prepared wal =
    let lock_table = times (times locks.0 (plus conn.0 prepared.0)) lock_object_bytes in
    (
      plus (plus (plus buffers.0 wal.0) lock_table) shared_memory_overhead_bytes,
      buffers.1 && conn.1 && locks.1 && prepared.1 && wal.1,
    )

abbrev pub derived_wal : ℕ × Bool → ℕ
derived_wal buffers = smaller (over_32 buffers.0) default_wal_buffers_cap_bytes

abbrev pub read_shared_buffers : List ResolvedParameter → ℕ × Bool
read_shared_buffers resolved =
    read parse_pg_mem_bytes default_shared_buffers_bytes (by_name "shared_buffers" resolved)

unfoldable pub estimate_shared_memory_bytes : List ResolvedParameter → ℕ × Bool
estimate_shared_memory_bytes resolved =
    estimate_of (read_shared_buffers resolved)
      (max_parsed resolved "max_connections" default_max_connections)
      (max_parsed resolved "max_locks_per_transaction" default_max_locks_per_transaction)
      (max_parsed resolved "max_prepared_transactions" default_max_prepared_transactions)
      (read_wal_buffers (derived_wal (read_shared_buffers resolved))
        (by_name "wal_buffers" resolved))

abbrev pub refused : ℕ → ℕ × Bool → Bool
refused ram_bytes estimate = estimate.1 && less ram_bytes estimate.0

-- `err == nil`, for a RAM that is not negative.
unfoldable pub validate_for_container : List ResolvedParameter → ℕ → Bool
validate_for_container resolved ram_mb =
    not (refused (times (times ram_mb 1024) 1024) (estimate_shared_memory_bytes resolved))
