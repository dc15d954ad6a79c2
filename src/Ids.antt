-- ===== src/Ids.antt =====
-- crates/camp-core/src/id.rs: bead ids `{prefix}-{n}`, and their allocation from the folded counter.
pub mod RoundTrip
pub mod Unsigned
pub mod Counting
use Prim.Native.Char.{Char, code}
use gascamp.Common.{
  ℕ, zero, suc, ◌+◌, ◌-◌, ◌*◌, ◌/◌, ◌%◌, ◌^◌, max, String, Bool, true, false, ◌&&◌, ◌||◌, not,
  Option, none, some, List, [], ◌∷◌, ◌++◌, leb, ltb, eqb, if◌then◌else◌, is_ascii_lowercase,
  is_ascii_digit, is_empty, find, update_where, is_some, ◌==◌, text_append,
}
use gascamp.Error.{
  Result, ok, err, invalid_prefix, invalid_event_data, not_well_formed_id, ok_or, ◌>>=◌, ◌>>◌,
}
use gascamp.Schema.{Tables, Counter, counter_key}

unfoldable pub all_alphanumeric : String → Bool
all_alphanumeric String.[] = true
all_alphanumeric (String.◌∷◌ c s) = (is_ascii_lowercase c || is_ascii_digit c) && all_alphanumeric s

unfoldable pub is_prefix : String → Bool
is_prefix String.[] = false
is_prefix (String.◌∷◌ c s) = is_ascii_lowercase c && all_alphanumeric s

unfoldable pub validate_prefix : String → Result (Unit {0})
validate_prefix s = if is_prefix s then ok tt else err (invalid_prefix s)

-- `id.split_once('-')`
unfoldable pub split_once : String → Option (String × String)
split_once String.[] = none
split_once (String.◌∷◌ c s) =
    let rest = split_once s in
    if eqb (code c) b'-'
    then some ("", s)
    else elim rest [ none ↦ none | some (a, b) ↦ some (String.◌∷◌ c a, b) ]

unfoldable pub all_digits : String → Bool
all_digits String.[] = true
all_digits (String.◌∷◌ c s) = is_ascii_digit c && all_digits s

-- a zero and more behind it
unfoldable pub leading_zero : String → Bool
leading_zero String.[] = false
leading_zero (String.◌∷◌ c s) = eqb (code c) b'0' && not (is_empty s)

unfoldable pub digits_value : ℕ → String → ℕ
digits_value n String.[] = n
digits_value n (String.◌∷◌ c s) = digits_value (n * 10 + (code c - b'0')) s

abbrev pub i64_max : ℕ
i64_max = 2 ^ 63 - 1

-- `num.parse::<i64>().ok()` of a text of digits
unfoldable pub parse_i64 : String → Option ℕ
parse_i64 num = let n = digits_value 0 num in if leb n i64_max then some n else none

unfoldable pub parse_number : String → String → Option (String × ℕ)
parse_number prefix num =
    if is_empty num || not (all_digits num)
    then none
    else if leading_zero num
    then none
    else if is_prefix prefix
    then elim (parse_i64 num) [ none ↦ none | some n ↦ some (prefix, n) ]
    else none

unfoldable pub parse_bead_id : String → Option (String × ℕ)
parse_bead_id id = elim (split_once id) [
  | none ↦ none
  | some (prefix, num) ↦ parse_number prefix num
]

unfoldable pub digit : ℕ → Char
digit zero = "0"
digit (suc zero) = "1"
digit (suc (suc zero)) = "2"
digit (suc (suc (suc zero))) = "3"
digit (suc (suc (suc (suc zero)))) = "4"
digit (suc (suc (suc (suc (suc zero))))) = "5"
digit (suc (suc (suc (suc (suc (suc zero)))))) = "6"
digit (suc (suc (suc (suc (suc (suc (suc zero))))))) = "7"
digit (suc (suc (suc (suc (suc (suc (suc (suc zero)))))))) = "8"
digit _ = "9"

unfoldable pub decimal_fuel : ℕ → ℕ → String → String
decimal_fuel zero n acc = acc
decimal_fuel (suc f) n acc =
    let done = String.◌∷◌ (digit (n % 10)) acc in
    let more = decimal_fuel f (n / 10) (String.◌∷◌ (digit (n % 10)) acc) in
    if eqb (n / 10) 0 then done else more

-- `format!("{n}")`
unfoldable pub decimal : ℕ → String
decimal n = decimal_fuel (n + 1) n ""

-- `SELECT high FROM counters WHERE prefix = ?1`
unfoldable pub counter_high : List Counter → String → Option ℕ
counter_high rows prefix = elim (find counter_key prefix rows) [
  | none ↦ none
  | some c ↦ some c.high
]

abbrev pub or_zero : Option ℕ → ℕ
or_zero none = 0
or_zero (some n) = n

abbrev pub bead_id : String → ℕ → String
bead_id prefix n = text_append prefix (String.◌∷◌ "-" (decimal n))

-- `format!("{prefix}-{}", high + 1)`: the sum of two `i64` wraps at the end of its range
unfoldable pub numbered : String → ℕ → String
numbered prefix high =
    if ltb high i64_max
    then bead_id prefix (high + 1)
    else text_append prefix "--9223372036854775808"

unfoldable pub next_bead_id : Tables → String → Result String
next_bead_id t prefix = do
  validate_prefix prefix
  ok (numbered prefix (or_zero (counter_high t.counters prefix)))

-- `INSERT INTO counters ... ON CONFLICT(prefix) DO UPDATE SET high = max(high, excluded.high)`
unfoldable pub raise : String → ℕ → List Counter → List Counter
raise prefix n rows =
    if is_some (find counter_key prefix rows)
    then update_where (λ c. c.prefix == prefix) (λ c. record c { high = max c.high n }) rows
    else rows ++ record { prefix = prefix; high = n } ∷ []

unfoldable pub bump_counter : String → Tables → Result Tables
bump_counter id t = do
  (prefix, n) ← ok_or (parse_bead_id id) (invalid_event_data "bead.created" (not_well_formed_id id))
  ok (record t { counters = raise prefix n t.counters })
