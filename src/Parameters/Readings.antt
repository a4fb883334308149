-- ===== src/Parameters/Readings.antt =====
-- The readings of single parameters, beside readings in numbers without a bound.
use Prim.Native.Char.{code}
use oddk.Base.{
  ℕ, ◌+◌, ◌*◌, ◌/◌, ◌%◌, ◌≤◌, ◌<◌, min, ◌≡◌, refl, ap, inl, inr, true, false, Option, none, some,
  List, String, str_eq, ◌==◌, if◌then◌else◌, arith, Bool-cases, some-injective,
}
use oddk.Parameters.Text.{
  trim_space, parse_non_negative, parse_amount, non_negative, at_most, digits, is_digit, by_sign,
}
use oddk.Parameters.{
  ResolvedParameter, word, half, scaled, parse_pg_mem_bytes, parsed_or, read, read_wal_buffers,
  by_name, default_shared_buffers_bytes, default_max_connections, default_max_locks_per_transaction,
  default_max_prepared_transactions, default_wal_buffers_cap_bytes, lock_object_bytes,
  shared_memory_overhead_bytes,
}

-- A size in bytes; none for one that does not parse.
abbrev pub product : Option (ℕ × ℕ) → Option ℕ
product none = none
product (some (n, factor)) = some (n * factor)

abbrev pub size_or : ℕ → Option String → Option ℕ
size_or default none = some default
size_or default (some value) = product (parse_amount value)

abbrev pub count_or : ℕ → Option String → Option ℕ
count_or default none = some default
count_or default (some value) = parse_non_negative value

abbrev pub wal_or : ℕ → Option String → Option ℕ
wal_or derived none = some derived
wal_or derived (some value) =
    if str_eq (trim_space value) "-1" then some derived else product (parse_amount value)

abbrev pub total : ℕ → ℕ → ℕ → ℕ → ℕ → ℕ
total buffers conn locks prepared wal =
    buffers + wal + locks * (conn + prepared) * lock_object_bytes + shared_memory_overhead_bytes

abbrev pub total_of : Option ℕ → Option ℕ → Option ℕ → Option ℕ → Option ℕ → Option ℕ
total_of (some b) (some c) (some l) (some p) (some w) = some (total b c l p w)
total_of _ _ _ _ _ = none

abbrev pub wal_of : Option ℕ → Option String → Option ℕ
wal_of none o = none
wal_of (some buffers) o = wal_or (min (buffers / 32) default_wal_buffers_cap_bytes) o

-- What the group asks for in bytes, in numbers without a bound; none if a value does not parse.
abbrev pub demand : List ResolvedParameter → Option ℕ
demand resolved =
    let buffers = size_or default_shared_buffers_bytes (by_name "shared_buffers" resolved) in
    total_of buffers (count_or default_max_connections (by_name "max_connections" resolved))
      (count_or default_max_locks_per_transaction (by_name "max_locks_per_transaction" resolved))
      (count_or default_max_prepared_transactions (by_name "max_prepared_transactions" resolved))
      (wal_of buffers (by_name "wal_buffers" resolved))

at_most-le : (limit : ℕ) (o : Option ℕ) {n : ℕ} → at_most limit o ≡ some n → n ≤ limit
at_most-le limit none {n} e = absurd (ground arith)
at_most-le limit (some m) {n} e = ground arith

by_sign-lt : (k : ℕ) (s : String) {n : ℕ} → by_sign k s ≡ some n → n < half
by_sign-lt k s {n} e = elim (Bool-cases (k == b'-')) [
  | inl m ↦ omega (arith, at_most-le 0 (digits s) (rw m at e))
  | inr m ↦ elim (Bool-cases (k == b'+')) [
    | inl q ↦ omega (arith, at_most-le 9223372036854775807 (digits s) (rw (m, q) at e))
    | inr q ↦ absurd (ground arith)
  ]
]

non_negative-lt : (s : String) {n : ℕ} → non_negative s ≡ some n → n < half
non_negative-lt String.[] e = absurd (ground arith)
non_negative-lt (String.◌∷◌ c s) {n} e = elim (Bool-cases (is_digit (code c))) [
  | inl d ↦ omega (arith, at_most-le 9223372036854775807 (digits (String.◌∷◌ c s)) (rw d at e))
  | inr d ↦ by_sign-lt (code c) s (rw d at e)
]

-- The readings, where the description has a number.
pub count-read :
    (default : ℕ) (o : Option String) {n : ℕ}
    → default < half
    → count_or default o ≡ some n
    → (read parse_non_negative default o ≡ (n, true)) × (n < half)
unfolding parse_non_negative
count-read default none {n} h e =
    (ap (λ (k : ℕ). (k, true)) (some-injective e), omega (arith, some-injective e))
count-read default (some value) {n} h e =
    (ap (parsed_or default) e, non_negative-lt (trim_space value) e)

amount-read :
    (default : ℕ) (a : Option (ℕ × ℕ)) {n : ℕ}
    → product a ≡ some n
    → parsed_or default (scaled a) ≡ (n % word, true)
amount-read default none {n} e = absurd (ground arith)
amount-read default (some (k, factor)) {n} e = ap (λ (m : ℕ). (m % word, true)) (some-injective e)

pub size-read :
    (default : ℕ) (o : Option String) {n : ℕ}
    → default < word
    → size_or default o ≡ some n
    → read parse_pg_mem_bytes default o ≡ (n % word, true)
unfolding parse_pg_mem_bytes
size-read default none {n} h e = ap (λ (k : ℕ). (k, true)) (omega (arith, some-injective e))
size-read default (some value) h e = amount-read default (parse_amount value) e

pub wal-read :
    (derived : ℕ) (o : Option String) {n : ℕ}
    → derived < word
    → wal_or derived o ≡ some n
    → read_wal_buffers derived o ≡ (n % word, true)
unfolding parse_pg_mem_bytes
wal-read derived none {n} h e = ap (λ (k : ℕ). (k, true)) (omega (arith, some-injective e))
wal-read derived (some value) {n} h e = elim (Bool-cases (str_eq (trim_space value) "-1")) [
  | inl m ↦ rw m (ap (λ (k : ℕ). (k, true)) (omega (arith, some-injective (rw m at e))))
  | inr m ↦ rw m (amount-read derived (parse_amount value) (rw m at e))
]

-- The flag of a reading where the description has no number.
pub count-inexact :
    (default : ℕ) (o : Option String)
    → count_or default o ≡ none
    → (read parse_non_negative default o).1 ≡ false
count-inexact default none e = absurd (ground arith)
count-inexact default (some value) e = ap (λ r. (parsed_or default r).1) e

amount-inexact :
    (default : ℕ) (a : Option (ℕ × ℕ)) → product a ≡ none → (parsed_or default (scaled a)).1 ≡ false
amount-inexact default none e = refl
amount-inexact default (some (k, factor)) e = absurd (ground arith)

pub size-inexact :
    (default : ℕ) (o : Option String)
    → size_or default o ≡ none
    → (read parse_pg_mem_bytes default o).1 ≡ false
unfolding parse_pg_mem_bytes
size-inexact default none e = absurd (ground arith)
size-inexact default (some value) e = amount-inexact default (parse_amount value) e

pub wal-inexact :
    (m derived : ℕ) (o : Option String) → wal_or m o ≡ none → (read_wal_buffers derived o).1 ≡ false
unfolding parse_pg_mem_bytes
wal-inexact m derived none e = absurd (ground arith)
wal-inexact m derived (some value) e = elim (Bool-cases (str_eq (trim_space value) "-1")) [
  | inl s ↦ absurd (ground arith)
  | inr s ↦ rw s (amount-inexact derived (parse_amount value) (rw s at e))
]
