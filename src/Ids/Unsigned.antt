-- ===== src/Ids/Unsigned.antt =====
-- `str::parse` of an unsigned integer, and what it makes of the text of a number.
use Prim.Native.Char.{code}
use gascamp.Common.{
  ◌≡◌, refl, ◌∙◌, ℕ, ◌-◌, ◌^◌, ◌≤◌, String, true, false, not, ◌||◌, Option, none, some, eqb, leb,
  if◌then◌else◌, is_empty, arith, has_colon,
}
use gascamp.Ids.{all_digits, digits_value, decimal}
use gascamp.Ids.RoundTrip.{all_digits-decimal, digits_value-decimal, decimal-not_empty}

abbrev pub u64_max : ℕ
u64_max = 2 ^ 64 - 1

unfoldable pub digits_of : ℕ → String → Option ℕ
digits_of max s =
    let n = digits_value 0 s in
    if is_empty s || not (all_digits s) then none else if leb n max then some n else none

-- a sign may stand before the digits
unfoldable pub parse_unsigned : ℕ → String → Option ℕ
parse_unsigned max String.[] = none
parse_unsigned max (String.◌∷◌ c s) =
    if eqb (code c) b'+' then digits_of max s else digits_of max (String.◌∷◌ c s)

digits_of-decimal : (max n : ℕ) → n ≤ max → digits_of max (decimal n) ≡ some n
unfolding digits_of
digits_of-decimal max n h =
    rw (decimal-not_empty n, all_digits-decimal n, digits_value-decimal n) (ground arith)

-- a text of digits has no sign
unsigned :
    (max : ℕ) (s : String)
    → is_empty s ≡ false
    → all_digits s ≡ true
    → parse_unsigned max s ≡ digits_of max s
unfolding parse_unsigned all_digits
unsigned max String.[] e h = absurd (ground arith)
unsigned max (String.◌∷◌ c s) e h = ground arith

pub parse_unsigned-decimal : (max n : ℕ) → n ≤ max → parse_unsigned max (decimal n) ≡ some n
parse_unsigned-decimal max n h =
    unsigned max (decimal n) (decimal-not_empty n) (all_digits-decimal n)
    ∙ digits_of-decimal max n h

no_colon : (s : String) → all_digits s ≡ true → has_colon s ≡ false
unfolding all_digits has_colon
no_colon String.[] h = refl
no_colon (String.◌∷◌ c s) h = ground (arith, no_colon s)

pub has_colon-decimal : (n : ℕ) → has_colon (decimal n) ≡ false
has_colon-decimal n = no_colon (decimal n) (all_digits-decimal n)
