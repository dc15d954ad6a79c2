-- ===== src/Ids/Counting.antt =====
-- crates/camp-core/src/id.rs: the counters, and the numbers that they have reached.
use mathlib.Core.Path.{subst}
use gascamp.Common.{
  ◌≡◌, refl, ap, ℕ, ◌+◌, ◌≤◌, max, String, true, Option, none, some, List, find, find-append,
  find-key, find-update_where, arith, Bool-cases, Option-cases, ltb, if◌then◌else◌, inl, inr, ◌==◌,
  eq_iff, eq_refl,
}
use gascamp.Error.{ok, >>=-eq-ok, ok_or, ok_or-eq-ok}
use gascamp.Schema.{Tables, Counter, counter_key}
use gascamp.Ids.{
  parse_bead_id, parse_number, all_digits, counter_high, or_zero, raise, bump_counter, numbered,
  i64_max, is_prefix,
}
use gascamp.Ids.RoundTrip.{parse_bead_id-bead_id, split_once-alphanumeric, prefix_alphanumeric}

-- the number that the counter of a prefix has reached
abbrev pub high_of : List Counter → String → ℕ
high_of rows prefix = or_zero (counter_high rows prefix)

-- An id that is well formed, with a number that its counter has reached.
pub record IsCounted (rows : List Counter) (id : String) : Type 0 where
  pub prefix : String
  pub n : ℕ
  pub parsed : parse_bead_id id ≡ some (prefix, n)
  pub reached : n ≤ high_of rows prefix

pub high-raise :
    (rows : List Counter) (q : String) (n : ℕ) (p : String)
    → high_of rows p ≤ high_of (raise q n rows) p
unfolding counter_high raise
high-raise rows q n p = ground (
  arith,
  find-append counter_key p rows (record { prefix = q; high = n }),
  find-update_where counter_key (λ c. c.prefix == q) (λ c. record c { high = max c.high n })
      (λ c. refl) p rows,
)

pub high-raise_self : (rows : List Counter) (q : String) (n : ℕ) → n ≤ high_of (raise q n rows) q
unfolding counter_high raise
high-raise_self rows q n = elim (Option-cases (find counter_key q rows)) [
  | inl new ↦
      ground
        (arith, new, eq_refl q, find-append counter_key q rows (record { prefix = q; high = n }))
  | inr (c, found) ↦
      (let key : c.prefix ≡ q = find-key counter_key q rows c found in
        ground (
          arith,
          found,
          key,
          eq_iff c.prefix q,
          find-update_where counter_key (λ c. c.prefix == q) (λ c. record c { high = max c.high n })
              (λ c. refl) q rows,
        ))
]

pub IsCounted-raise :
    (rows : List Counter) (q : String) (n : ℕ) (id : String)
    → IsCounted rows id
    → IsCounted (raise q n rows) id
IsCounted-raise rows q n id h = record {
  prefix = h.prefix;
  n = h.n;
  parsed = h.parsed;
  reached = omega (arith, h.reached, high-raise rows q n h.prefix);
}

-- the next number of a prefix, if an `i64` holds it
abbrev pub next_number : ℕ → String → Option (String × ℕ)
next_number high prefix = if ltb high i64_max then some (prefix, high + 1) else none

-- What `numbered` makes, read back.
pub parse_numbered :
    (prefix : String) (high : ℕ)
    → is_prefix prefix ≡ true
    → parse_bead_id (numbered prefix high) ≡ next_number high prefix
unfolding numbered parse_bead_id parse_number all_digits
parse_numbered prefix high valid = elim (Bool-cases (ltb high i64_max)) [
  | inl low ↦
      rw low
        (unfold numbered in parse_bead_id-bead_id prefix (high + 1) valid (ground (arith, low)))
  | inr full ↦
      rw
        (
          full,
          parse_bead_id,
          split_once-alphanumeric prefix "-9223372036854775808" (prefix_alphanumeric prefix valid),
        )
        refl
]

ok_injective : {t u : Tables} → ok t ≡ ok u → t ≡ u
ok_injective h = cc

pub some_injective : {a b : String} → some a ≡ some b → a ≡ b
some_injective h = cc

pub bump_counter-IsCounted :
    (id : String) (t : Tables) {u : Tables} → bump_counter id t ≡ ok u → IsCounted u.counters id
unfolding bump_counter
bump_counter-IsCounted id t {u} h =
    let ((prefix, n), well, h') = >>=-eq-ok (ok_or (parse_bead_id id) _) _ h in
    subst (λ v. IsCounted v.counters id) (ok_injective h')
      (record {
        prefix = prefix;
        n = n;
        parsed = ok_or-eq-ok (parse_bead_id id) _ well;
        reached = high-raise_self t.counters prefix n;
      })

pub counted_not_next :
    (rows : List Counter) (prefix id : String)
    → parse_bead_id id ≡ next_number (high_of rows prefix) prefix
    → IsCounted rows id
    → ⊥
counted_not_next rows prefix id h k = elim (Bool-cases (ltb (high_of rows prefix) i64_max)) [
  | inr full ↦ absurd (ground (arith, full, h, k.parsed))
  | inl low ↦ absurd (
      let same : ◌≡◌ {A = Option (String × ℕ)} (some (k.prefix, k.n))
          (some (prefix, high_of rows prefix + 1)) =
        ground (arith, low, h, k.parsed) in
      let p : k.prefix ≡ prefix = pair_prefix same in
      let n : k.n ≡ high_of rows prefix + 1 = pair_number same in
      let le : high_of rows k.prefix ≡ high_of rows prefix = ap (high_of rows) p in
      omega (arith, n, le, k.reached))
]
  where
    pair_prefix :
        {a b : String} {m n : ℕ} → ◌≡◌ {A = Option (String × ℕ)} (some (a, m)) (some (b, n)) → a ≡ b
    pair_prefix e = cc

    pair_number :
        {a b : String} {m n : ℕ} → ◌≡◌ {A = Option (String × ℕ)} (some (a, m)) (some (b, n)) → m ≡ n
    pair_number e = cc
