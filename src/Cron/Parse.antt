-- ===== src/Cron/Parse.antt =====
-- crates/camp-core/src/orders/cron.rs: `CronExpr::parse`. An error holds the field's name and, in
-- place of its text, which of the messages it is.
pub mod Fields
pub mod Values
use gascamp.Common.{
  ℕ, zero, suc, ◌+◌, ◌-◌, String, Bool, true, false, not, ◌&&◌, ◌||◌, Option, none, some, List, [],
  ◌∷◌, leb, eqb, ltb, length, if◌then◌else◌, is_empty, split, split_once_at, split_whitespace, ◌==◌,
}
use gascamp.Ids.Unsigned.{parse_unsigned}
use gascamp.Cron.{FieldSet, CronExpr}

pub data CronError : Type 0 where
  expected_5_fields : ℕ → CronError
  empty_list_item bad_step step_zero inverted_range not_a_number : String → CronError
  out_of_range : String → ℕ → CronError

pub data Parsed {ℓ} (A : Type ℓ) : Type ℓ where
  parsed : A → Parsed A
  failed : CronError → Parsed A

infixl 5 ◌>>=◌
abbrev pub ◌>>=◌ {ℓ μ} : {A : Type ℓ} {C : Type μ} → Parsed A → (A → Parsed C) → Parsed C
failed e >>= rest = failed e
parsed a >>= rest = rest a

abbrev pub or_fail {ℓ} : {A : Type ℓ} → Option A → CronError → Parsed A
or_fail none e = failed e
or_fail (some a) e = parsed a

abbrev pub u8_max : ℕ
u8_max = 255

unfoldable pub parse_value : String → ℕ → ℕ → String → Parsed ℕ
parse_value name min max text = do
  v ← or_fail (parse_unsigned u8_max text) (not_a_number name)
  if ltb v min || ltb max v then failed (out_of_range name v) else parsed v

-- one item: its first value, its last one, and its step
pub record Item : Type 0 where
  pub lo : ℕ
  pub hi : ℕ
  pub step : ℕ

abbrev pub item_step : String → Option String → Parsed ℕ
item_step name none = parsed 1
item_step name (some s) = do
  step ← or_fail (parse_unsigned u8_max s) (bad_step name)
  if eqb step 0 then failed (step_zero name) else parsed step

abbrev pub single_value : String → ℕ → ℕ → String → Parsed (ℕ × ℕ)
single_value name min max text = do v ← parse_value name min max text; parsed (v, v)

abbrev pub from_to : String → ℕ → ℕ → String → String → Parsed (ℕ × ℕ)
from_to name min max a b = do
  lo ← parse_value name min max a
  hi ← parse_value name min max b
  parsed (lo, hi)

unfoldable pub item_range : String → ℕ → ℕ → String → Parsed (ℕ × ℕ)
item_range name min max range =
    if range == "*" then parsed (min, max) else elim (split_once_at b'-' range) [
      | some (a, b) ↦ from_to name min max a b
      | none ↦ single_value name min max range
    ]

-- the range and the step's text
abbrev pub item_parts : String → String × Option String
item_parts item = elim (split_once_at b'/' item) [ some (r, s) ↦ (r, some s) | none ↦ (item, none) ]

-- `if lo > hi`
abbrev pub ordered_item : String → ℕ → ℕ × ℕ → Parsed Item
ordered_item name step range =
    if ltb range.1 range.0
    then failed (inverted_range name)
    else parsed (record { lo = range.0; hi = range.1; step = step })

abbrev pub parse_parts : String → ℕ → ℕ → String × Option String → Parsed Item
parse_parts name min max parts = do
  step ← item_step name parts.1
  range ← item_range name min max parts.0
  ordered_item name step range

unfoldable pub parse_item : String → ℕ → ℕ → String → Parsed Item
parse_item name min max item =
    if is_empty item
    then failed (empty_list_item name)
    else parse_parts name min max (item_parts item)

-- `if let Some(slot) = allowed.get_mut(i) { *slot = true; }`
unfoldable pub set_true : List Bool → ℕ → List Bool
set_true [] i = []
set_true (b ∷ rest) zero = true ∷ rest
set_true (b ∷ rest) (suc i) = b ∷ set_true rest i

-- day of week: 7 is 0
abbrev pub normalized : Bool → ℕ → ℕ
normalized wrap_seven v = if wrap_seven && eqb v 7 then 0 else v

-- The loop from `v` to `hi`; a step that leaves the range of a `u8` ends it, as `checked_add` does.
unfoldable pub mark : ℕ → Bool → ℕ → ℕ → ℕ → ℕ → List Bool → List Bool
mark zero wrap min v hi step allowed = allowed
mark (suc fuel) wrap min v hi step allowed =
    let slot = set_true allowed (normalized wrap v - min) in
    let more = mark fuel wrap min (v + step) hi step slot in
    if leb (v + step) u8_max && leb (v + step) hi then more else slot

-- the loop on the items of a list
unfoldable pub mark_items : String → Bool → ℕ → ℕ → List String → List Bool → Parsed (List Bool)
mark_items name wrap min max [] allowed = parsed allowed
mark_items name wrap min max (item ∷ rest) allowed = parse_item name min max item >>= (λ it.
    mark_items name wrap min max rest
      (mark (suc (it.hi - it.lo)) wrap min it.lo it.hi it.step allowed))

-- `vec![false; n]`
unfoldable pub falses : ℕ → List Bool
falses zero = []
falses (suc n) = false ∷ falses n

abbrev pub store : Bool → ℕ → ℕ → ℕ
store wrap min max = if wrap then max - min else max - min + 1

unfoldable pub parse_field : String → String → ℕ → ℕ → Bool → Parsed FieldSet
parse_field text name min max wrap =
    mark_items name wrap min max (split b',' text) (falses (store wrap min max)) >>= (λ allowed.
      parsed (record { min = min; allowed = allowed; restricted = not (text == "*") }))

unfoldable pub parse_fields : String → List String → Parsed CronExpr
parse_fields expr (a ∷ b ∷ c ∷ d ∷ e ∷ []) = do
  minutes ← parse_field a "minute" 0 59 false
  hours ← parse_field b "hour" 0 23 false
  days_of_month ← parse_field c "day of month" 1 31 false
  months ← parse_field d "month" 1 12 false
  days_of_week ← parse_field e "day of week" 0 7 true
  parsed (record {
    source = expr;
    minutes = minutes;
    hours = hours;
    days_of_month = days_of_month;
    months = months;
    days_of_week = days_of_week;
  })
parse_fields expr fields = failed (expected_5_fields (length fields))

unfoldable pub parse : String → Parsed CronExpr
parse expr = parse_fields expr (split_whitespace expr)
