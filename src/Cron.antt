-- ===== src/Cron.antt =====
-- crates/camp-core/src/orders/cron.rs: cron expressions and the search for their next fire. A
-- timestamp is a number of nanoseconds from `Timestamp::MIN`; `Zone` stands for jiff: the calendar,
-- and a time zone with `Disambiguation::Compatible`.
pub mod Search
pub mod Parse
pub mod Missed
pub mod Heap
use gascamp.Common.{
  ℕ, zero, suc, ◌+◌, ◌-◌, Bool, true, false, ◌&&◌, ◌||◌, Option, none, some, List, [], ◌∷◌, String,
  ltb, leb, if◌then◌else◌,
}

pub record FieldSet : Type 0 where
  pub min : ℕ
  pub allowed : List Bool
  pub restricted : Bool

-- `allowed.get(i).copied().unwrap_or(false)`
unfoldable pub get_or_false : List Bool → ℕ → Bool
get_or_false [] i = false
get_or_false (b ∷ rest) zero = b
get_or_false (b ∷ rest) (suc i) = get_or_false rest i

unfoldable pub contains : FieldSet → ℕ → Bool
contains set value = leb set.min value && get_or_false set.allowed (value - set.min)

pub record CronExpr : Type 0 where
  pub source : String
  pub minutes : FieldSet
  pub hours : FieldSet
  pub days_of_month : FieldSet
  pub months : FieldSet
  pub days_of_week : FieldSet

-- jiff: the date of an instant, the next day, the month, the day of the month and the day of the
-- week from Sunday of a date, and the instant of a civil time, if it has one
pub record Zone : Type 1 where
  pub Date : Type 0
  pub date_of : ℕ → Date
  pub tomorrow : Date → Option Date
  pub month : Date → ℕ
  pub day : Date → ℕ
  pub weekday : Date → ℕ
  pub resolve : Date → ℕ → ℕ → Option ℕ

abbrev pub search_horizon_days : ℕ
search_horizon_days = 2196

-- `for i in from..from + n`, to the first value that is found
unfoldable pub first_some : (ℕ → Option ℕ) → ℕ → ℕ → Option ℕ
first_some f from zero = none
first_some f from (suc n) = elim (f from) [ some t ↦ some t | none ↦ first_some f (from + 1) n ]

abbrev pub when : Bool → Option ℕ → Option ℕ
when true o = o
when false o = none

-- the resolution, if it is after `after`
abbrev pub later_than : ℕ → Option ℕ → Option ℕ
later_than after none = none
later_than after (some ts) = if ltb after ts then some ts else none

module _ (tz : Zone) (expr : CronExpr) where
  open tz use {Date}

  unfoldable pub day_matches : Date → Bool
  day_matches date =
      contains expr.months (tz.month date)
      && (if expr.days_of_month.restricted
          then if expr.days_of_week.restricted
            then contains expr.days_of_month (tz.day date)
              || contains expr.days_of_week (tz.weekday date)
            else contains expr.days_of_month (tz.day date)
          else if expr.days_of_week.restricted
          then contains expr.days_of_week (tz.weekday date)
          else true)

  abbrev pub candidate_at : ℕ → Date → ℕ → ℕ → Option ℕ
  candidate_at after date hour minute =
      when (contains expr.minutes minute) (later_than after (tz.resolve date hour minute))

  abbrev pub fire_in : ℕ → Date → ℕ → Option ℕ
  fire_in after date hour =
      when (contains expr.hours hour) (first_some (candidate_at after date hour) 0 60)

  unfoldable pub first_fire_on : Date → ℕ → Option ℕ
  first_fire_on date after = first_some (fire_in after date) 0 24

  -- `self.day_matches(date) && let Some(ts) = self.first_fire_on(date, after, tz)`
  abbrev pub fire_on : ℕ → Date → Option ℕ
  fire_on after date = when (day_matches date) (first_fire_on date after)

  -- the loop over the days
  unfoldable pub search_days : ℕ → ℕ → Date → Option ℕ
  search_days after zero date = none
  search_days after (suc days) date = elim (fire_on after date) [
    | some ts ↦ some ts
    | none ↦ elim (tz.tomorrow date) [ none ↦ none | some next ↦ search_days after days next ]
  ]

  unfoldable pub next_after : ℕ → Option ℕ
  next_after after = search_days after search_horizon_days (tz.date_of after)
