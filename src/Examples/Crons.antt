-- ===== src/Examples/Crons.antt =====
-- Runs of the cron search, the parser and the heap, in a calendar of days of 24 hours.
use gascamp.Common
use gascamp.Common.{
  ◌≡◌, refl, ℕ, suc, ◌+◌, ◌*◌, ◌/◌, ◌%◌, ◌≤◌, Option, none, some, List, [], ◌∷◌, String, Bool, true,
  false, ◌↔◌, arith, split,
}
use gascamp.Cron
use gascamp.Ids
use gascamp.Ids.Unsigned
use gascamp.Cron.{Zone, CronExpr, FieldSet, next_after}
use gascamp.Cron.Search.{IsNext, next_after-IsNext}
use gascamp.Cron.Parse
use gascamp.Cron.Parse.{parsed, parse_field, normalized}
use gascamp.Cron.Parse.Values.{InItems, parse_field_lem}
use gascamp.Cron.Missed.{nanos, most_recent_missed}
use gascamp.Cron.Missed.Selection.{IsSelected, most_recent_missed-IsSelected}
use gascamp.Cron.Heap
use gascamp.Cron.Heap.{Order, cron, armed, Fire, CatchUp, CronHeap, new, fire_due, recompute}
use gascamp.Cron.Heap.Firing.{Fires}
use gascamp.Cron.Heap.Recomputing.{Recomputed}
use gascamp.Cron.Heap.Histories.{HeapReached, fire_due-Fires, recompute-Recomputed}

abbrev minute_nanos : ℕ
minute_nanos = 60 * nanos

-- every month one month long
abbrev days : Zone
days = record {
  Date = ℕ;
  date_of = λ t. t / (1440 * minute_nanos);
  tomorrow = λ d. some (d + 1);
  month = λ d. 1;
  day = λ d. d % 31 + 1;
  weekday = λ d. d % 7;
  resolve = λ d h m. some ((d * 1440 + h * 60 + m) * minute_nanos);
}

abbrev weekdays : FieldSet
weekdays = record {
  min = 0;
  allowed = false ∷ true ∷ true ∷ true ∷ true ∷ true ∷ false ∷ [];
  restricted = true;
}

weekdays_parsed : parse_field "1-5" "day of week" 0 7 true ≡ parsed weekdays
unfolding parse_field Parse.mark_items Parse.parse_item Parse.item_range Parse.parse_value
    Parse.mark Parse.set_true Parse.falses Common.split Common.split_once_at Unsigned.parse_unsigned
    Unsigned.digits_of Ids.all_digits Ids.digits_value
weekdays_parsed = refl

parse_field_lem_example :
    (Cron.contains weekdays 3 ≡ true)
    ↔ ((w : ℕ) × InItems "day of week" 0 7 (split b',' "1-5") w × (normalized true w ≡ 3))
parse_field_lem_example =
    parse_field_lem "day of week" true 0 7 (omega arith) (omega arith) (λ _. (refl, refl)) "1-5"
      weekdays weekdays_parsed 3

abbrev only_first : ℕ → FieldSet
only_first min = record { min = min; allowed = true ∷ []; restricted = true }

abbrev any_day : ℕ → FieldSet
any_day min = record { min = min; allowed = []; restricted = false }

-- at midnight
abbrev midnight : CronExpr
midnight = record {
  source = "0 0 * 1 *";
  minutes = only_first 0;
  hours = only_first 0;
  days_of_month = any_day 1;
  months = only_first 1;
  days_of_week = any_day 0;
}

next_after-IsNext_example : IsNext days midnight 5 (next_after days midnight 5)
next_after-IsNext_example = next_after-IsNext days midnight 5

most_recent_missed-IsSelected_example :
    (r : Option ℕ) × (most_recent_missed days midnight (2 * minute_nanos) (1441 * minute_nanos) 5
      ≡ some r)
    × IsSelected days midnight (2 * minute_nanos) (1441 * minute_nanos) 5 r
most_recent_missed-IsSelected_example =
    most_recent_missed-IsSelected days midnight (2 * minute_nanos) (1441 * minute_nanos) 5

abbrev nightly : Order
nightly = record {
  name = "nightly";
  trigger = cron midnight;
  formula = "sweep";
  rig = none;
  catch_up_window = 2 * minute_nanos;
}

abbrev heap : CronHeap
heap = record {
  orders = nightly ∷ [];
  entries = record { at = 1440 * minute_nanos; index = 0 } ∷ [];
}

heap_armed : Heap.arm days nightly 5 new ≡ armed heap
unfolding Heap.arm new next_after Cron.search_days Cron.day_matches Cron.first_fire_on
    Cron.first_some Cron.contains Cron.get_or_false Heap.push
heap_armed = refl

fire_due-Fires_example :
    (declared : List Fire) × (heap' : CronHeap) × (fire_due days (1440 * minute_nanos) heap
      ≡ some (declared, heap'))
    × (heap'.orders ≡ heap.orders)
    × Fires days heap.orders (1440 * minute_nanos) heap.entries declared heap'.entries
fire_due-Fires_example =
    fire_due-Fires days (HeapReached.arms nightly 5 HeapReached.created heap_armed)
      (1440 * minute_nanos)

recompute-Recomputed_example :
    (catch_ups : List CatchUp) × (heap' : CronHeap) × (recompute days (1441 * minute_nanos) 5 heap
      ≡ some (catch_ups, heap'))
    × (heap'.orders ≡ heap.orders)
    × Recomputed days heap.orders (1441 * minute_nanos) 5 0 heap.orders [] catch_ups heap'.entries
recompute-Recomputed_example = recompute-Recomputed days heap (1441 * minute_nanos) 5
