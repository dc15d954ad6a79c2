-- ===== src/Cron/Heap.antt =====
-- crates/camp-core/src/orders/cron.rs: `CronHeap`. The BinaryHeap of reversed entries is the list of
-- the entries in their order, the next to pop in front. The loop of `fire_due` is on fuel, one more
-- than there are entries: what it pushes is not due.
pub mod Rearming
pub mod Sorted
pub mod Declared
pub mod Firing
pub mod Recomputing
pub mod Histories
use Prim.Native.Nat.{compare, Ordering}
use gascamp.Common.{
  ℕ, zero, suc, ◌+◌, ◌-◌, Bool, true, false, ◌&&◌, Option, none, some, List, [], ◌∷◌, ◌++◌, String,
  ltb, leb, length, if◌then◌else◌,
}
use gascamp.Cron.{CronExpr, Zone, next_after}
use gascamp.Cron.Missed.{nanos, on_time_tolerance, most_recent_missed, checked_sub}

pub data Trigger : Type 0 where
  cron : CronExpr → Trigger
  event : (event_type : String) (label : Option String) → Trigger

pub record Order : Type 0 where
  pub name : String
  pub trigger : Trigger
  pub formula : String
  pub rig : Option String
  pub catch_up_window : ℕ

pub record Fire : Type 0 where
  pub order : String
  pub scheduled : ℕ
  pub catch_up : Bool

pub record CatchUp : Type 0 where
  pub order : String
  pub scheduled : ℕ

-- (next fire, order index)
pub record HeapEntry : Type 0 where
  pub at : ℕ
  pub index : ℕ

pub record CronHeap : Type 0 where
  pub orders : List Order
  pub entries : List HeapEntry

abbrev pub entry_before : HeapEntry → HeapEntry → Bool
entry_before a b = elim (compare a.at b.at) [
  | Ordering.lt ↦ true
  | Ordering.gt ↦ false
  | Ordering.eq ↦ leb a.index b.index
]

unfoldable pub push : HeapEntry → List HeapEntry → List HeapEntry
push e [] = e ∷ []
push e (x ∷ rest) = let later = push e rest in if entry_before e x then e ∷ x ∷ rest else x ∷ later

unfoldable pub get : List Order → ℕ → Option Order
get [] i = none
get (o ∷ rest) zero = some o
get (o ∷ rest) (suc i) = get rest i

unfoldable pub new : CronHeap
new = record { orders = []; entries = [] }

unfoldable pub next_deadline : CronHeap → Option ℕ
next_deadline heap = elim heap.entries [ [] ↦ none | e ∷ _ ↦ some e.at ]

-- `arm` of an order with this trigger; the errors name the order
pub data Armed : Type 0 where
  armed : CronHeap → Armed
  not_cron never_fires : String → Armed

-- the heap with the entries that a loop leaves
abbrev pub with_entries {ℓ} :
    {A : Type ℓ} → List Order → Option (A × List HeapEntry) → Option (A × CronHeap)
with_entries orders none = none
with_entries orders (some (a, entries)) = some (a, record { orders = orders; entries = entries })

module _ (tz : Zone) where
  unfoldable pub arm : Order → ℕ → CronHeap → Armed
  arm order now heap = elim order.trigger [
    | event _ _ ↦ not_cron order.name
    | cron expr ↦ elim (next_after tz expr now) [
      | none ↦ never_fires order.name
      | some next ↦ armed (record {
        orders = heap.orders ++ order ∷ [];
        entries = push (record { at = next; index = length heap.orders }) heap.entries;
      })
    ]
  ]

  -- the fire of a popped entry, if it declares one; none where the scan is out of fuel
  abbrev pub late_fire : Order → ℕ → Option (Option ℕ) → Option (List Fire)
  late_fire order now none = none
  late_fire order now (some none) = some []
  late_fire order now (some (some scheduled)) = some (
      record {
        order = order.name;
        scheduled = scheduled;
        catch_up = ltb on_time_tolerance (now - scheduled);
      }
      ∷ [])

  abbrev pub scan_from : ℕ → ℕ
  scan_from deadline = elim (checked_sub deadline nanos) [ none ↦ deadline | some t ↦ t ]

  unfoldable pub fire_entry : ℕ → ℕ → Order → Option (List Fire)
  fire_entry now deadline order =
      if leb (now - deadline) on_time_tolerance
      then some (record { order = order.name; scheduled = deadline; catch_up = false } ∷ [])
      else elim order.trigger [
        | event _ _ ↦ some []
        | cron expr ↦
            late_fire order now
              (most_recent_missed tz expr order.catch_up_window now (scan_from deadline))
      ]

  -- the push after a pop
  unfoldable pub reschedule : ℕ → ℕ → Trigger → List HeapEntry → List HeapEntry
  reschedule now index (event _ _) entries = entries
  reschedule now index (cron expr) entries = elim (next_after tz expr now) [
    | none ↦ entries
    | some next ↦ push (record { at = next; index = index }) entries
  ]

  abbrev pub and_fires :
      Option (List Fire) → Option (List Fire × List HeapEntry) → Option (List Fire × List HeapEntry)
  and_fires none rest = none
  and_fires (some fires) none = none
  and_fires (some fires) (some (more, entries)) = some (fires ++ more, entries)

  -- none: an index out of range, which panics, or no fuel
  unfoldable pub fire_loop :
      List Order → ℕ → ℕ → List HeapEntry → Option (List Fire × List HeapEntry)
  fire_loop orders now zero entries = none
  fire_loop orders now (suc fuel) [] = some ([], [])
  fire_loop orders now (suc fuel) (e ∷ rest) = elim (leb e.at now) [
    | false ↦ some ([], e ∷ rest)
    | true ↦ elim (get orders e.index) [
      | none ↦ none
      | some order ↦
          and_fires (fire_entry now e.at order)
            (fire_loop orders now fuel (reschedule now e.index order.trigger rest))
    ]
  ]

  unfoldable pub fire_due : ℕ → CronHeap → Option (List Fire × CronHeap)
  fire_due now heap =
      with_entries heap.orders (fire_loop heap.orders now (suc (length heap.entries)) heap.entries)

  abbrev pub missed_of : ℕ → ℕ → Order → CronExpr → Option (Option ℕ)
  missed_of now last_seen order expr =
      if ltb last_seen now
      then most_recent_missed tz expr order.catch_up_window now last_seen
      else some none

  abbrev pub and_catch_up :
      Order
      → Option (Option ℕ)
      → Option (List CatchUp × List HeapEntry)
      → Option (List CatchUp × List HeapEntry)
  and_catch_up order none rest = none
  and_catch_up order (some missed) none = none
  and_catch_up order (some none) (some (more, entries)) = some (more, entries)
  and_catch_up order (some (some scheduled)) (some (more, entries)) =
      some (record { order = order.name; scheduled = scheduled } ∷ more, entries)

  abbrev pub with_catch_up :
      ℕ
      → ℕ
      → Order
      → Trigger
      → Option (List CatchUp × List HeapEntry)
      → Option (List CatchUp × List HeapEntry)
  with_catch_up now last_seen order (event _ _) rest = rest
  with_catch_up now last_seen order (cron expr) rest =
      and_catch_up order (missed_of now last_seen order expr) rest

  -- the loop of `recompute`, on the orders from an index on
  unfoldable pub recompute_loop :
      ℕ → ℕ → ℕ → List Order → List HeapEntry → Option (List CatchUp × List HeapEntry)
  recompute_loop now last_seen index [] entries = some ([], entries)
  recompute_loop now last_seen index (order ∷ rest) entries =
      with_catch_up now last_seen order order.trigger
        (recompute_loop now last_seen (index + 1) rest (reschedule now index order.trigger entries))

  unfoldable pub recompute : ℕ → ℕ → CronHeap → Option (List CatchUp × CronHeap)
  recompute now last_seen heap =
      with_entries heap.orders (recompute_loop now last_seen 0 heap.orders [])

-- `CatchUp::into_fire`
unfoldable pub into_fire : CatchUp → ℕ → Fire
into_fire c now = record {
  order = c.order;
  scheduled = c.scheduled;
  catch_up = ltb on_time_tolerance (now - c.scheduled);
}
