-- ===== src/Orders.antt =====
-- crates/camp-core/src/orders/mod.rs: the fires of orders, their cooks and their responses. `texts`
-- and `ints` stand for serde_json: the texts and the integers of a payload's JSON object, by key;
-- SQLite's `json_extract` reads the same integers.
pub mod Actors
pub mod Pending
use gascamp.Common.{
  ℕ, zero, suc, ◌+◌, ◌-◌, ◌^◌, String, Bool, true, false, not, ◌&&◌, ◌||◌, Option, none, some, List,
  [], ◌∷◌, ◌++◌, any, eqb, leb, if◌then◌else◌, is_empty, is_text, ◌==◌, text_append, strip_prefix,
  rsplit_once, contains, select,
}
use Prim.Native.Char.{code}
use gascamp.Error.{Result, ok, err, invalid_event_data, no_order_name, ◌>>=◌}
use gascamp.Event.{Event, EventInput, EventType, as_str}
use gascamp.Schema.{ℤ, pos, negsuc, Tables, bead_row}
use gascamp.Ids.{decimal, i64_max}
use gascamp.Ids.Unsigned.{parse_unsigned, digits_of}
use gascamp.Ledger.{Db, events_of_type, has_event_with_actor}
use gascamp.Run.{first_payload, last_payload, is_event_of}

-- `str::parse::<i64>`
unfoldable pub parse_signed : String → Option ℤ
parse_signed String.[] = none
parse_signed (String.◌∷◌ c s) =
    if eqb (code c) b'-'
    then elim (digits_of (i64_max + 1) s) [
      | none ↦ none
      | some zero ↦ some (pos 0)
      | some (suc n) ↦ some (negsuc n)
    ]
    else elim (parse_unsigned i64_max (String.◌∷◌ c s)) [ none ↦ none | some n ↦ some (pos n) ]

abbrev pub order_actor_prefix : String
order_actor_prefix = "order:"

unfoldable pub cook_actor : String → ℕ → String
cook_actor order_name fired_seq =
    text_append order_actor_prefix (text_append order_name (String.◌∷◌ ":" (decimal fired_seq)))

unfoldable pub parse_cook_actor : String → Option (String × ℤ)
parse_cook_actor actor = elim (strip_prefix order_actor_prefix actor) [
  | none ↦ none
  | some rest ↦ elim (rsplit_once rest) [
    | none ↦ none
    | some (name, seq) ↦
        if is_empty name
        then none
        else elim (parse_signed seq) [ none ↦ none | some n ↦ some (name, n) ]
  ]
]

pub record PendingCook : Type 0 where
  pub order : String
  pub fired_seq : ℕ

abbrev pub same_int : ℤ → ℤ → Bool
same_int (pos a) (pos b) = eqb a b
same_int (negsuc a) (negsuc b) = eqb a b
same_int _ _ = false

abbrev pub is_int : ℤ → Option ℤ → Bool
is_int n none = false
is_int n (some m) = same_int n m

-- the `fired_seq` of an actor, if it is one of a cook
abbrev pub actor_seq : String → Option ℤ
actor_seq actor = elim (parse_cook_actor actor) [ none ↦ none | some (_, seq) ↦ some seq ]

module _ {V : Type 0} (texts : V → String → Option String) (ints : V → String → Option ℤ) where
  unfoldable pub pending_cook_from_fired : Event V → Result (Option PendingCook)
  pending_cook_from_fired event =
      if not (as_str event.kind == as_str EventType.order_fired)
      then ok none
      else elim (texts event.payload "order") [
        | none ↦ err (invalid_event_data (as_str event.kind) no_order_name)
        | some order ↦ ok (some (record { order = order; fired_seq = event.seq }))
      ]

  -- `responded.contains(&seq)`
  unfoldable pub responded : Db V → ℤ → Bool
  responded db seq =
      any (λ (e : Event V). is_int seq (actor_seq e.actor)) (events_of_type EventType.run_cooked db)
      || any (λ (e : Event V). is_int seq (ints e.payload "fired_seq"))
          (events_of_type EventType.order_failed db)

  unfoldable pub has_event_with_data_i64 : EventType → String → ℤ → Db V → Bool
  has_event_with_data_i64 kind key value db =
      any (λ (e : Event V). as_str e.kind == as_str kind && is_int value (ints e.payload key))
        db.events

  unfoldable pub fire_response_exists : Db V → String → ℕ → Bool
  fire_response_exists db order_name fired_seq =
      has_event_with_actor EventType.run_cooked (cook_actor order_name fired_seq) db
      || has_event_with_data_i64 EventType.order_failed "fired_seq" (pos fired_seq) db

  abbrev pub queue : Option PendingCook → List PendingCook → List PendingCook
  queue none pending = pending
  queue (some cook) pending = cook ∷ pending

  -- the loop of `unresponded_fires`
  unfoldable pub collect : Db V → List (Event V) → Result (List PendingCook)
  collect db [] = ok []
  collect db (fired ∷ rest) =
      let later = collect db rest in
      if responded db (pos fired.seq)
      then later
      else (pending_cook_from_fired fired
          >>= (λ cook. later >>= (λ pending. ok (queue cook pending))))

  unfoldable pub unresponded_fires : Db V → Result (List PendingCook)
  unresponded_fires db = collect db (events_of_type EventType.order_fired db)
