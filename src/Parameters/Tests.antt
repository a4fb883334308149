-- ===== src/Parameters/Tests.antt =====
-- Parameter groups as users write them.
use oddk.Base.{◌*◌, ◌≤◌, ◌≡◌, ◌↔◌, refl, true, none, some, List, [], ◌∷◌, String, arith}
use oddk.Parameters.Text.{trim_space, digits_from, parse_non_negative, parse_amount}
use oddk.Parameters.{
  ResolvedParameter, by_name, parse_pg_mem_bytes, estimate_shared_memory_bytes,
  validate_for_container,
}
use oddk.Parameters.Fits.{validate_for_container_iff}

abbrev cli_arg : String → String → ResolvedParameter
cli_arg name value = record {
  name = name;
  parameter_type = "postgres_cli_arg";
  value_type = "string";
  value = value;
}

abbrev group : List ResolvedParameter
group = cli_arg "shared_buffers" "2 GB" ∷ cli_arg "max_connections" "200" ∷ []

-- 2^34 GB are 2^64 bytes.
abbrev huge : List ResolvedParameter
huge = cli_arg "shared_buffers" "17179869184 GB" ∷ []

trim_space-both : trim_space " 12 kB " ≡ "12 kB"
unfolding trim_space
trim_space-both = refl

parse_non_negative-sign : parse_non_negative "+17" ≡ some 17
unfolding parse_non_negative
parse_non_negative-sign = refl

parse_non_negative-minus : parse_non_negative "-1" ≡ none
unfolding parse_non_negative
parse_non_negative-minus = refl

parse_amount-unit : parse_amount "128kB" ≡ some (128, 1024)
unfolding parse_amount parse_non_negative
parse_amount-unit = refl

parse_pg_mem_bytes-blocks : parse_pg_mem_bytes "16" ≡ some 131072
unfolding parse_pg_mem_bytes digits_from
parse_pg_mem_bytes-blocks = refl

parse_pg_mem_bytes-unknown : parse_pg_mem_bytes "16 XB" ≡ none
unfolding parse_pg_mem_bytes parse_non_negative
parse_pg_mem_bytes-unknown = refl

by_name-last : by_name "a" (cli_arg "a" "1" ∷ cli_arg "a" "2" ∷ []) ≡ some "2"
unfolding by_name
by_name-last = refl

estimate_shared_memory_bytes-huge : estimate_shared_memory_bytes huge ≡ (68836864, true)
unfolding estimate_shared_memory_bytes by_name parse_pg_mem_bytes parse_non_negative
estimate_shared_memory_bytes-huge = refl

validate_for_container-huge : validate_for_container huge 1024 ≡ true
unfolding validate_for_container estimate_shared_memory_bytes by_name parse_pg_mem_bytes
    parse_non_negative
validate_for_container-huge = refl

validate_for_container_iff_example :
    (validate_for_container group 1024 ≡ true) ↔ (2234825728 ≤ 1024 * 1048576)
unfolding by_name parse_amount parse_non_negative
validate_for_container_iff_example =
    (validate_for_container_iff group 1024 (omega arith)).1 2234825728 refl (omega arith)
