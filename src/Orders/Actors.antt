-- ===== src/Orders/Actors.antt =====
-- crates/camp-core/src/orders/mod.rs: the actor of a cook is read back.
use Prim.Native.Char.{code}
use gascamp.Common.{
  ◌≡◌, refl, ℕ, ◌≤◌, String, true, false, some, is_empty, arith, eqb, strip_prefix-append,
  rsplit_once-append, text_append,
}
use gascamp.Schema.{pos}
use gascamp.Ids.{decimal, i64_max, all_digits}
use gascamp.Ids.RoundTrip.{all_digits-decimal, decimal-not_empty}
use gascamp.Ids.Unsigned.{parse_unsigned, parse_unsigned-decimal, has_colon-decimal}
use gascamp.Orders.{parse_signed, cook_actor, parse_cook_actor, order_actor_prefix}

-- a text of digits has no sign
parse_signed-digits :
    (s : String) (n : ℕ)
    → is_empty s ≡ false
    → all_digits s ≡ true
    → parse_unsigned i64_max s ≡ some n
    → parse_signed s ≡ some (pos n)
unfolding parse_signed all_digits
parse_signed-digits String.[] n e d h = absurd (ground arith)
parse_signed-digits (String.◌∷◌ c s) n e d h =
    let digit : eqb (code c) b'-' ≡ false = ground (arith, d) in rw (digit, h) refl

-- The actor of a cook, made of an order's name that is not empty, colons or not, and a seq that an
-- `i64` holds, is read back as that name and that seq.
pub parse_cook_actor-cook_actor :
    (order_name : String) (fired_seq : ℕ)
    → is_empty order_name ≡ false
    → fired_seq ≤ i64_max
    → parse_cook_actor (cook_actor order_name fired_seq) ≡ some (order_name, pos fired_seq)
unfolding parse_cook_actor cook_actor
parse_cook_actor-cook_actor name seq named small =
    let rest = text_append name (String.◌∷◌ ":" (decimal seq)) in
    let number : parse_signed (decimal seq) ≡ some (pos seq) =
      parse_signed-digits (decimal seq) seq (decimal-not_empty seq) (all_digits-decimal seq)
        (parse_unsigned-decimal i64_max seq small) in
    rw (parse_cook_actor, strip_prefix-append order_actor_prefix rest)
      (rw (rsplit_once-append name (decimal seq) (has_colon-decimal seq)) (rw (named, number) refl))
