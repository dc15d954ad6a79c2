-- ===== src/Ids/RoundTrip.antt =====
-- A bead id is read back as the prefix and the number that it was made of.
use Prim.Native.Char.{Char, code}
use mathlib.Core.Path.{subst}
use text.Mathlib.TextLemmas.{nil-append, cons-append}
use gascamp.Common.{
  ◌≡◌, refl, sym, ap, ◌∙◌, ℕ, zero, suc, ◌+◌, ◌/◌, ◌%◌, ◌≤◌, ◌<◌, String, true, false, some, eqb,
  is_empty, text_append, arith, Bool-cases, inl, inr, eq_iff,
}
use gascamp.Ids.{
  all_alphanumeric, is_prefix, split_once, all_digits, leading_zero, digits_value, i64_max,
  parse_i64, parse_number, parse_bead_id, digit, decimal_fuel, decimal, bead_id,
}

pub split_once-alphanumeric :
    (p s : String)
    → all_alphanumeric p ≡ true
    → split_once (text_append p (String.◌∷◌ "-" s)) ≡ some (p, s)
unfolding split_once all_alphanumeric
split_once-alphanumeric String.[] s h = rw (nil-append (String.◌∷◌ "-" s)) refl
split_once-alphanumeric (String.◌∷◌ c p) s h =
    rw (cons-append c p (String.◌∷◌ "-" s)) (ground (arith, split_once-alphanumeric p s))

pub prefix_alphanumeric : (p : String) → is_prefix p ≡ true → all_alphanumeric p ≡ true
unfolding is_prefix all_alphanumeric
prefix_alphanumeric String.[] h = refl
prefix_alphanumeric (String.◌∷◌ c p) h = ground arith

code-digit : (n : ℕ) → n < 10 → code (digit n) ≡ n + 48
unfolding digit
code-digit zero h = refl
code-digit (suc zero) h = refl
code-digit (suc (suc zero)) h = refl
code-digit (suc (suc (suc zero))) h = refl
code-digit (suc (suc (suc (suc zero)))) h = refl
code-digit (suc (suc (suc (suc (suc zero))))) h = refl
code-digit (suc (suc (suc (suc (suc (suc zero)))))) h = refl
code-digit (suc (suc (suc (suc (suc (suc (suc zero))))))) h = refl
code-digit (suc (suc (suc (suc (suc (suc (suc (suc zero)))))))) h = refl
code-digit (suc (suc (suc (suc (suc (suc (suc (suc (suc zero))))))))) h = refl
code-digit (suc (suc (suc (suc (suc (suc (suc (suc (suc (suc n)))))))))) h = absurd (omega arith)

last_digit : (n : ℕ) → code (digit (n % 10)) ≡ n % 10 + 48
last_digit n = code-digit (n % 10) (omega arith)

digits-cons : (n : ℕ) (acc : String) → all_digits (String.◌∷◌ (digit (n % 10)) acc) ≡ all_digits acc
unfolding all_digits
digits-cons n acc = ground (arith, last_digit n)

all_digits-decimal_fuel :
    (f n : ℕ) (acc : String) → all_digits acc ≡ true → all_digits (decimal_fuel f n acc) ≡ true
unfolding decimal_fuel
all_digits-decimal_fuel zero n acc h = h
all_digits-decimal_fuel (suc f) n acc h =
    let more : all_digits (String.◌∷◌ (digit (n % 10)) acc) ≡ true = digits-cons n acc ∙ h in
    elim (Bool-cases (eqb (n / 10) 0)) [
      | inl y ↦ rw y more
      | inr q ↦ rw q (all_digits-decimal_fuel f (n / 10) _ more)
    ]

-- With more fuel than the number, the text has the number's value.
digits_value-decimal_fuel :
    (f n : ℕ) (acc : String) → n < f → digits_value 0 (decimal_fuel f n acc) ≡ digits_value n acc
unfolding decimal_fuel digits_value
digits_value-decimal_fuel zero n acc h = absurd (omega arith)
digits_value-decimal_fuel (suc f) n acc h = elim (Bool-cases (eqb (n / 10) 0)) [
  | inl y ↦ rw y (ap (λ k. digits_value k acc) (ground (arith, last_digit n)))
  | inr q ↦ rw q (
      digits_value-decimal_fuel f (n / 10) _ (ground arith)
      ∙ ap (λ k. digits_value k acc) (omega (arith, last_digit n)))
]

no_leading_zero :
    (f n : ℕ) (acc : String) → n < f → 0 < n → leading_zero (decimal_fuel f n acc) ≡ false
unfolding decimal_fuel leading_zero
no_leading_zero zero n acc h p = absurd (omega arith)
no_leading_zero (suc f) n acc h p = elim (Bool-cases (eqb (n / 10) 0)) [
  | inl y ↦ rw y (ground (arith, last_digit n))
  | inr q ↦ rw q (no_leading_zero f (n / 10) _ (ground arith) (ground arith))
]

not_empty : (c : Char) (s : String) → is_empty (String.◌∷◌ c s) ≡ false
not_empty c s = elim (Bool-cases (is_empty (String.◌∷◌ c s))) [
  | inl y ↦ absurd (let e : String.◌∷◌ c s ≡ "" = (eq_iff (String.◌∷◌ c s) "").0 y in cc)
  | inr n ↦ n
]

is_empty-decimal_fuel :
    (f n : ℕ) (acc : String) → is_empty acc ≡ false → is_empty (decimal_fuel f n acc) ≡ false
unfolding decimal_fuel
is_empty-decimal_fuel zero n acc h = h
is_empty-decimal_fuel (suc f) n acc h = elim (Bool-cases (eqb (n / 10) 0)) [
  | inl y ↦ rw y (not_empty (digit (n % 10)) acc)
  | inr q ↦ rw q (is_empty-decimal_fuel f (n / 10) _ (not_empty (digit (n % 10)) acc))
]

decimal-leading : (n : ℕ) → leading_zero (decimal n) ≡ false
unfolding decimal decimal_fuel leading_zero digit
decimal-leading zero = refl
decimal-leading (suc n) = no_leading_zero (suc n + 1) (suc n) "" (omega arith) (omega arith)

pub decimal-not_empty : (n : ℕ) → is_empty (decimal n) ≡ false
unfolding decimal decimal_fuel
decimal-not_empty n =
    let s : n + 1 ≡ suc n = omega arith in
    subst (λ (k : ℕ). is_empty (decimal_fuel k n "") ≡ false) (sym s)
      (elim (Bool-cases (eqb (n / 10) 0)) [
        | inl y ↦ rw y (not_empty (digit (n % 10)) "")
        | inr q ↦ rw q (is_empty-decimal_fuel n (n / 10) _ (not_empty (digit (n % 10)) ""))
      ])

pub all_digits-decimal : (n : ℕ) → all_digits (decimal n) ≡ true
unfolding decimal all_digits
all_digits-decimal n = all_digits-decimal_fuel (n + 1) n "" refl

pub digits_value-decimal : (n : ℕ) → digits_value 0 (decimal n) ≡ n
unfolding decimal digits_value
digits_value-decimal n = digits_value-decimal_fuel (n + 1) n "" (omega arith)

parse_i64-decimal : (n : ℕ) → n ≤ i64_max → parse_i64 (decimal n) ≡ some n
unfolding parse_i64 decimal digits_value
parse_i64-decimal n h =
    rw (digits_value-decimal_fuel (n + 1) n "" (omega arith)) (ground (arith, h))

-- An id that is made of a valid prefix and a number that an `i64` holds is read back as that prefix
-- and that number.
pub parse_bead_id-bead_id :
    (prefix : String) (n : ℕ)
    → is_prefix prefix ≡ true
    → n ≤ i64_max
    → parse_bead_id (bead_id prefix n) ≡ some (prefix, n)
unfolding parse_number parse_bead_id
parse_bead_id-bead_id prefix n valid small =
    let digits : all_digits (decimal n) ≡ true =
      unfold decimal all_digits in all_digits-decimal_fuel (n + 1) n "" refl in
    rw
      (split_once-alphanumeric prefix (decimal n) (prefix_alphanumeric prefix valid), parse_bead_id)
      (rw (decimal-not_empty n)
        (rw digits (rw (decimal-leading n) (rw valid (rw (parse_i64-decimal n small) refl)))))
