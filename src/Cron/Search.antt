-- ===== src/Cron/Search.antt =====
-- crates/camp-core/src/orders/cron.rs: what `next_after` finds.
use mathlib.Core.Path.{subst}
use gascamp.Common.{
  ◌≡◌, refl, ℕ, zero, suc, ◌+◌, ◌<◌, ◌≤◌, Bool, true, false, Option, none, some, Option-cases, inl,
  inr, arith, ◌⊎◌,
}
use gascamp.Cron.{
  CronExpr, Zone, contains, first_some, when, later_than, day_matches, candidate_at, fire_in,
  first_fire_on, fire_on, search_days, next_after, search_horizon_days,
}

-- the value at `i`, the first from `from` that has one
pub record IsFirst (f : ℕ → Option ℕ) (from n t : ℕ) : Type 0 where
  pub i : ℕ
  pub low : from ≤ i
  pub high : i < from + n
  pub found : f i ≡ some t
  pub before : (j : ℕ) → from ≤ j → j < i → f j ≡ none

this_or_later : (from j : ℕ) → from ≤ j → (j ≡ from) ⊎ (from + 1 ≤ j)
this_or_later from j h = ground (arith, h)

first_some-IsFirst :
    (f : ℕ → Option ℕ) (from n t : ℕ) → first_some f from n ≡ some t → IsFirst f from n t
unfolding first_some
first_some-IsFirst f from zero t h = absurd (cc)
first_some-IsFirst f from (suc n) t h = elim (Option-cases (f from)) [
  | inr (u, e) ↦ record {
    i = from;
    low = omega arith;
    high = omega arith;
    found = ground (arith, e, h);
    before = λ j a b. absurd (omega (arith, a, b));
  }
  | inl e ↦
      (let r = first_some-IsFirst f (from + 1) n t (ground (arith, e, h)) in
        record {
          i = r.i;
          low = omega (arith, r.low);
          high = omega (arith, r.high);
          found = r.found;
          before = λ j a b. elim (this_or_later from j a) [
            | inl same ↦ rw same e
            | inr l ↦ r.before j l b
          ];
        })
]

first_some-none :
    (f : ℕ → Option ℕ) (from n : ℕ)
    → first_some f from n ≡ none
    → (j : ℕ) → from ≤ j
    → j < from + n
    → f j ≡ none
unfolding first_some
first_some-none f from zero h j a b = absurd (omega (arith, a, b))
first_some-none f from (suc n) h j a b = elim (Option-cases (f from)) [
  | inr (u, e) ↦ absurd (ground (arith, e, h))
  | inl e ↦ elim (this_or_later from j a) [
    | inl same ↦ rw same e
    | inr l ↦ first_some-none f (from + 1) n (ground (arith, e, h)) j l (omega (arith, b))
  ]
]

when-some : (b : Bool) (o : Option ℕ) (t : ℕ) → when b o ≡ some t → (b ≡ true) × (o ≡ some t)
when-some true o t h = (refl, h)
when-some false o t h = absurd (cc)

later_than-some :
    (after : ℕ) (o : Option ℕ) (t : ℕ) → later_than after o ≡ some t → (after < t) × (o ≡ some t)
later_than-some after none t h = absurd (cc)
later_than-some after (some u) t h = (ground (arith, h), ground (arith, h))

module _ (tz : Zone) (expr : CronExpr) (after : ℕ) where
  open tz use {Date}

  -- A civil time that the expression matches, with the instant that it resolves to.
  pub record IsFire (date : Date) (hour minute ts : ℕ) : Type 0 where
    pub hour_bound : hour < 24
    pub minute_bound : minute < 60
    pub day : day_matches tz expr date ≡ true
    pub in_hours : contains expr.hours hour ≡ true
    pub in_minutes : contains expr.minutes minute ≡ true
    pub resolved : tz.resolve date hour minute ≡ some ts

  -- No match on the date resolves to an instant after `after`.
  abbrev pub IsPast : Date → Type 0
  IsPast date = (hour minute ts : ℕ) → IsFire date hour minute ts → ts ≤ after

  -- the date that is `k` days later
  unfoldable pub days_later : Date → ℕ → Option Date
  days_later date zero = some date
  days_later date (suc k) = elim (tz.tomorrow date) [ none ↦ none | some next ↦ days_later next k ]

  fire_on-some :
      (date : Date) (ts : ℕ)
      → fire_on tz expr after date ≡ some ts
      → (hour : ℕ) × (minute : ℕ) × IsFire date hour minute ts × (after < ts)
  unfolding first_fire_on
  fire_on-some date ts h =
      let (day, h₁) = when-some (day_matches tz expr date) _ ts h in
      let first = first_some-IsFirst (fire_in tz expr after date) 0 24 ts h₁ in
      let (hour, h₂) = when-some (contains expr.hours first.i) _ ts first.found in
      let second = first_some-IsFirst (candidate_at tz expr after date first.i) 0 60 ts h₂ in
      let (minute, h₃) = when-some (contains expr.minutes second.i) _ ts second.found in
      let (above, resolved) = later_than-some after (tz.resolve date first.i second.i) ts h₃ in
      (
        first.i,
        second.i,
        record {
          hour_bound = omega (arith, first.high);
          minute_bound = omega (arith, second.high);
          day = day;
          in_hours = hour;
          in_minutes = minute;
          resolved = resolved;
        },
        above,
      )

  fire_on-none : (date : Date) → fire_on tz expr after date ≡ none → IsPast date
  unfolding first_fire_on
  fire_on-none date h hour minute ts f =
      let day : first_some (fire_in tz expr after date) 0 24 ≡ none = ground (arith, h, f.day) in
      let in_hour =
        first_some-none (fire_in tz expr after date) 0 24 day hour (omega arith)
          (omega (arith, f.hour_bound)) in
      let all : first_some (candidate_at tz expr after date hour) 0 60 ≡ none =
        ground (arith, in_hour, f.in_hours) in
      let in_minute =
        first_some-none (candidate_at tz expr after date hour) 0 60 all minute (omega arith)
          (omega (arith, f.minute_bound)) in
      ground (arith, in_minute, f.in_minutes, f.resolved)

  search_days-none :
      (days : ℕ) (date : Date)
      → search_days tz expr after days date ≡ none
      → (k : ℕ) (d : Date) → k < days
      → days_later date k ≡ some d
      → IsPast d
  unfolding search_days days_later
  search_days-none zero date h k d low at = absurd (omega (arith, low))
  search_days-none (suc days) date h zero d low at =
      subst IsPast (ground (arith, at)) (fire_on-none date (ground (arith, h)))
  search_days-none (suc days) date h (suc k) d low at = elim (Option-cases (tz.tomorrow date)) [
    | inl e ↦ absurd (ground (arith, e, at))
    | inr (next, e) ↦
        search_days-none days next (ground (arith, e, h)) k d (omega (arith, low))
          (ground (arith, e, at))
  ]

  -- A fire, with the days before it.
  pub record IsFound (date : Date) (days ts : ℕ) : Type 0 where
    pub k : ℕ
    pub on : Date
    pub hour : ℕ
    pub minute : ℕ
    pub bound : k < days
    pub dated : days_later date k ≡ some on
    pub fire : IsFire on hour minute ts
    pub above : after < ts
    pub past : (j : ℕ) (d : Date) → j < k → days_later date j ≡ some d → IsPast d

  search_days-some :
      (days : ℕ) (date : Date) (ts : ℕ)
      → search_days tz expr after days date ≡ some ts
      → IsFound date days ts
  unfolding search_days days_later
  search_days-some zero date ts h = absurd (cc)
  search_days-some (suc days) date ts h = elim (Option-cases (fire_on tz expr after date)) [
    | inr (u, e) ↦
        (let (hour, minute, fire, above) = fire_on-some date ts (ground (arith, e, h)) in
          record {
            k = 0;
            on = date;
            hour = hour;
            minute = minute;
            bound = omega arith;
            dated = refl;
            fire = fire;
            above = above;
            past = λ j d low at. absurd (omega (arith, low));
          })
    | inl e ↦ elim (Option-cases (tz.tomorrow date)) [
      | inl last ↦ absurd (ground (arith, e, last, h))
      | inr (next, e') ↦
          (let r = search_days-some days next ts (ground (arith, e, e', h)) in
            record {
              k = suc r.k;
              on = r.on;
              hour = r.hour;
              minute = r.minute;
              bound = omega (arith, r.bound);
              dated = ground (arith, e', r.dated);
              fire = r.fire;
              above = r.above;
              past = λ j d low at. before next e' r.past e j d low at;
            })
    ]
  ]
    where
      before :
          {m : ℕ} (next : Date)
          → tz.tomorrow date ≡ some next
          → ((j : ℕ) (d : Date) → j < m → days_later next j ≡ some d → IsPast d)
          → fire_on tz expr after date ≡ none
          → (j : ℕ) (d : Date) → j < suc m
          → days_later date j ≡ some d
          → IsPast d
      before next e' past e zero d low at = subst IsPast (ground (arith, at)) (fire_on-none date e)
      before next e' past e (suc j) d low at =
          past j d (omega (arith, low)) (ground (arith, e', at))

  -- what an answer of `next_after` says
  abbrev pub IsNext : Option ℕ → Type 0
  IsNext (some ts) = IsFound (tz.date_of after) search_horizon_days ts
  IsNext none =
      (k : ℕ) (d : Date)
      → k < search_horizon_days
      → days_later (tz.date_of after) k ≡ some d
      → IsPast d

  -- An instant that `next_after` returns is later than `after`, is the resolution of a civil time that
  -- the expression matches, on a day of the search_days horizon, and no match of an earlier day from the
  -- day of `after` on resolves to an instant after `after`. Where it returns none, no match on any
  -- day of the horizon does.
  pub next_after-IsNext : IsNext (next_after tz expr after)
  unfolding next_after
  next_after-IsNext = go (search_days tz expr after search_horizon_days (tz.date_of after)) refl
    where
      go :
          (o : Option ℕ)
          → search_days tz expr after search_horizon_days (tz.date_of after) ≡ o
          → IsNext o
      go none h = search_days-none search_horizon_days (tz.date_of after) h
      go (some ts) h = search_days-some search_horizon_days (tz.date_of after) ts h

  pub next_after-later : (ts : ℕ) → next_after tz expr after ≡ some ts → after < ts
  next_after-later ts h = (subst IsNext h next_after-IsNext).above
