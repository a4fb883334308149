-- ===== src/Parameters/Text.antt =====
-- The texts of parameter values: strings.TrimSpace, strconv.ParseInt and the units of
-- internal/store/parameters/sharedmem.go.
use Prim.Native.Char.{Char, code}
use oddk.Base.{
  ℕ, ◌+◌, ◌-◌, ◌*◌, Bool, true, false, ◌&&◌, ◌||◌, Option, none, some, List, [], ◌∷◌, String,
  str_eq, ◌==◌, leb, if◌then◌else◌,
}

abbrev between : ℕ → ℕ → ℕ → Bool
between low high n = leb low n && leb n high

-- unicode.IsSpace
abbrev is_space : ℕ → Bool
is_space n =
    between 9 13 n
    || (n == 32)
    || (n == 133)
    || (n == 160)
    || (n == 5760)
    || between 8192 8202 n
    || between 8232 8233 n
    || (n == 8239)
    || (n == 8287)
    || (n == 12288)

pub trim_left : String → String
trim_left String.[] = ""
trim_left (String.◌∷◌ c s) =
    let rest = trim_left s in if is_space (code c) then rest else String.◌∷◌ c s

pub trim_right : String → String
trim_right String.[] = ""
trim_right (String.◌∷◌ c s) =
    let rest = trim_right s in if str_eq rest "" && is_space (code c) then "" else String.◌∷◌ c rest

unfoldable pub trim_space : String → String
unfolding trim_left trim_right
trim_space s = trim_right (trim_left s)

abbrev pub is_digit : ℕ → Bool
is_digit n = between b'0' b'9' n

-- The digits so far stand for the first argument.
unfoldable pub digits_from : ℕ → String → Option ℕ
digits_from so_far String.[] = some so_far
digits_from so_far (String.◌∷◌ c s) =
    let rest = digits_from (10 * so_far + (code c - b'0')) s in
    if is_digit (code c) then rest else none

abbrev pub digits : String → Option ℕ
digits s = if str_eq s "" then none else digits_from 0 s

abbrev pub at_most : ℕ → Option ℕ → Option ℕ
at_most limit none = none
at_most limit (some n) = if leb n limit then some n else none

abbrev pub by_sign : ℕ → String → Option ℕ
by_sign n s =
    if n == b'-'
    then at_most 0 (digits s)
    else if n == b'+'
    then at_most 9223372036854775807 (digits s)
    else none

-- strconv.Atoi or ParseInt, where a negative answer counts as an error like the others.
abbrev pub non_negative : String → Option ℕ
non_negative String.[] = none
non_negative (String.◌∷◌ c s) =
    if is_digit (code c)
    then at_most 9223372036854775807 (digits (String.◌∷◌ c s))
    else by_sign (code c) s

unfoldable pub parse_non_negative : String → Option ℕ
unfolding trim_space digits_from
parse_non_negative value = non_negative (trim_space value)

abbrev upper : ℕ → ℕ
upper n = if between b'a' b'z' n then n - 32 else n

pub same_upper : String → String → Bool
same_upper String.[] String.[] = true
same_upper String.[] (String.◌∷◌ d t) = false
same_upper (String.◌∷◌ c s) String.[] = false
same_upper (String.◌∷◌ c s) (String.◌∷◌ d t) = (code c == upper (code d)) && same_upper s t

abbrev with_first : Char → Option String → Option String
with_first c none = none
with_first c (some s) = some (String.◌∷◌ c s)

-- What stands before a suffix, given in capitals.
pub before_suffix : String → String → Option String
unfolding same_upper
before_suffix suffix String.[] = if str_eq suffix "" then some "" else none
before_suffix suffix (String.◌∷◌ c s) =
    let rest = before_suffix suffix s in
    if same_upper suffix (String.◌∷◌ c s) then some "" else with_first c rest

abbrev counted_in : ℕ → Option ℕ → Option (ℕ × ℕ)
counted_in factor none = none
counted_in factor (some n) = some (n, factor)

-- The first unit that fits decides; a number without a unit counts blocks of 8 kB.
pub in_units : List (String × ℕ) → String → Option (ℕ × ℕ)
unfolding before_suffix
in_units [] value = counted_in 8192 (non_negative value)
in_units ((suffix, factor) ∷ units) value =
    let rest = in_units units value in
    elim (before_suffix suffix value) [
      | some num_part ↦ counted_in factor (parse_non_negative num_part)
      | none ↦ rest
    ]

abbrev pg_mem_units : List (String × ℕ)
pg_mem_units =
    ("TB", 1099511627776) ∷ ("GB", 1073741824) ∷ ("MB", 1048576) ∷ ("KB", 1024) ∷ ("B", 1) ∷ []

-- The number and the unit that `parsePGMemBytes` multiplies.
unfoldable pub parse_amount : String → Option (ℕ × ℕ)
unfolding in_units trim_space
parse_amount value =
    let trimmed = trim_space value in
    if str_eq trimmed "" then none else in_units pg_mem_units trimmed
