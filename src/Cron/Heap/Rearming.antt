-- ===== src/Cron/Heap/Rearming.antt =====
-- crates/camp-core/src/orders/cron.rs: the entries that a heap ought to have after its orders are
-- scheduled again, and the fires of an entry that is due.
use gascamp.Common.{
  ◌≡◌, refl, ℕ, ◌+◌, ◌-◌, ◌<◌, ◌≤◌, Bool, true, false, Option, none, some, List, [], ◌∷◌, ◌++◌, All,
  select, length, Option-cases, inl, inr, ◌⊎◌, arith, ltb, leb, if◌then◌else◌,
}
use gascamp.Cron.{Zone, next_after}
use gascamp.Cron.Search.{next_after-later}
use gascamp.Cron.Missed.{nanos, on_time_tolerance}
use gascamp.Cron.Missed.Selection.{IsSelected}
use gascamp.Cron.Heap.{Trigger, cron, event, Order, Fire, CatchUp, HeapEntry, push, get, reschedule}

abbrev pub one_if : Bool → ℕ
one_if true = 1
one_if false = 0

abbrev pub count : (HeapEntry → Bool) → List HeapEntry → ℕ
count P entries = length (select P entries)

count-push :
    (P : HeapEntry → Bool) (e : HeapEntry) (xs : List HeapEntry)
    → count P (push e xs) ≡ one_if (P e) + count P xs
unfolding push select
count-push P e [] = ground arith
count-push P e (x ∷ xs) = ground (arith, count-push P e xs)

module _ (tz : Zone) (P : HeapEntry → Bool) (now : ℕ) where
  abbrev at_next : ℕ → Option ℕ → ℕ
  at_next index none = 0
  at_next index (some next) = one_if (P (record { at = next; index = index }))

  -- an order has one entry, at its next fire after `now`, or none
  abbrev pub rearmed_as : ℕ → Trigger → ℕ
  rearmed_as index (event _ _) = 0
  rearmed_as index (cron expr) = at_next index (next_after tz expr now)

  abbrev rearmed_of : ℕ → Option Order → ℕ
  rearmed_of index none = 0
  rearmed_of index (some order) = rearmed_as index order.trigger

  -- the entries that are not due, and the next ones of those that are
  abbrev pub kept : List Order → List HeapEntry → ℕ
  kept orders [] = 0
  kept orders (e ∷ es) =
      (if leb e.at now then rearmed_of e.index (get orders e.index) else one_if (P e))
      + kept orders es

  -- one entry for each order
  abbrev pub all_rearmed : ℕ → List Order → ℕ
  all_rearmed index [] = 0
  all_rearmed index (order ∷ rest) = rearmed_as index order.trigger + all_rearmed (index + 1) rest

  kept-push :
      (orders : List Order) (e : HeapEntry) (xs : List HeapEntry)
      → now < e.at
      → kept orders (push e xs) ≡ one_if (P e) + kept orders xs
  unfolding push
  kept-push orders e [] h = ground (arith, h)
  kept-push orders e (x ∷ xs) h = ground (arith, h, kept-push orders e xs h)

  pub kept-later :
      (orders : List Order) (es : List HeapEntry)
      → All (λ (e : HeapEntry). now < e.at) es
      → count P es ≡ kept orders es
  unfolding select
  kept-later orders [] h = refl
  kept-later orders (e ∷ es) h = ground (arith, h.0, kept-later orders es h.1)

  pub kept-reschedule :
      (orders : List Order) (index : ℕ) (trigger : Trigger) (entries : List HeapEntry)
      → kept orders (reschedule tz now index trigger entries)
        ≡ rearmed_as index trigger + kept orders entries
  unfolding reschedule
  kept-reschedule orders index (event _ _) entries = ground arith
  kept-reschedule orders index (cron expr) entries = elim (Option-cases (next_after tz expr now)) [
    | inl e ↦ rw (reschedule, e) (omega arith)
    | inr (next, e) ↦
        rw (reschedule, e)
          (kept-push orders (record { at = next; index = index }) entries
            (next_after-later tz expr now next e))
  ]

  pub count-reschedule :
      (index : ℕ) (trigger : Trigger) (entries : List HeapEntry)
      → count P (reschedule tz now index trigger entries)
        ≡ rearmed_as index trigger + count P entries
  unfolding reschedule
  count-reschedule index (event _ _) entries = ground arith
  count-reschedule index (cron expr) entries = elim (Option-cases (next_after tz expr now)) [
    | inl e ↦ rw (reschedule, e) (omega arith)
    | inr (next, e) ↦
        rw (reschedule, e) (count-push P (record { at = next; index = index }) entries)
  ]

abbrev pub is_due : ℕ → HeapEntry → Bool
is_due now e = leb e.at now

select-push :
    (now : ℕ) (e : HeapEntry) (xs : List HeapEntry)
    → now < e.at
    → select (is_due now) (push e xs) ≡ select (is_due now) xs
unfolding push select
select-push now e [] h = ground (arith, h)
select-push now e (x ∷ xs) h = ground (arith, h, select-push now e xs h)

module _ (tz : Zone) (now : ℕ) where
  pub select-reschedule :
      (index : ℕ) (trigger : Trigger) (entries : List HeapEntry)
      → select (is_due now) (reschedule tz now index trigger entries) ≡ select (is_due now) entries
  unfolding reschedule
  select-reschedule index (event _ _) entries = refl
  select-reschedule index (cron expr) entries = elim (Option-cases (next_after tz expr now)) [
    | inl e ↦ rw (reschedule, e) refl
    | inr (next, e) ↦
        rw (reschedule, e) (select-push now _ entries (next_after-later tz expr now next e))
  ]

  -- the second before a deadline, or the deadline where there is none
  abbrev pub second_before : ℕ → ℕ
  second_before deadline = if leb nanos deadline then deadline - nanos else deadline

  abbrev pub late_fires : Order → Option ℕ → List Fire
  late_fires order none = []
  late_fires order (some t) =
      record { order = order.name; scheduled = t; catch_up = ltb on_time_tolerance (now - t) } ∷ []

  -- The fire of an entry that is late: the one that the selection of missed fires gives, if any.
  abbrev pub IsLate : Order → ℕ → List Fire → Trigger → Type 0
  IsLate order deadline fires (event _ _) = fires ≡ []
  IsLate order deadline fires (cron expr) =
      (r : Option ℕ) × IsSelected tz expr order.catch_up_window now (second_before deadline) r
      × (fires ≡ late_fires order r)

  -- The fires of one entry that is due: its own time where it is on time.
  abbrev pub IsFireOf : List Order → HeapEntry → List Fire → Type 0
  IsFireOf orders e fires =
      (order : Order) × (get orders e.index ≡ some order)
      × (((now - e.at ≤ on_time_tolerance)
            × (fires ≡ record { order = order.name; scheduled = e.at; catch_up = false } ∷ []))
          ⊎ ((on_time_tolerance < now - e.at) × IsLate order e.at fires order.trigger))

  -- the fires of the entries, one after the other
  abbrev pub Declares : List Order → List HeapEntry → List Fire → Type 0
  Declares orders [] fires = fires ≡ []
  Declares orders (e ∷ es) fires =
      (own : List Fire) × (more : List Fire) × (fires ≡ own ++ more)
      × IsFireOf orders e own
      × Declares orders es more

  abbrev pub caught_of : Order → Option ℕ → List CatchUp
  caught_of order none = []
  caught_of order (some t) = record { order = order.name; scheduled = t } ∷ []

  -- The catch-up of an order since `last_seen`: none where the clock has not gone forward.
  abbrev pub IsCatchUpOf : ℕ → Order → List CatchUp → Trigger → Type 0
  IsCatchUpOf last_seen order c (event _ _) = c ≡ []
  IsCatchUpOf last_seen order c (cron expr) =
      ((now ≤ last_seen) × (c ≡ []))
      ⊎ ((last_seen < now)
          × ((r : Option ℕ) × IsSelected tz expr order.catch_up_window now last_seen r
              × (c ≡ caught_of order r)))

  abbrev pub CatchesUp : ℕ → List Order → List CatchUp → Type 0
  CatchesUp last_seen [] c = c ≡ []
  CatchesUp last_seen (order ∷ rest) c =
      (own : List CatchUp) × (more : List CatchUp) × (c ≡ own ++ more)
      × IsCatchUpOf last_seen order own order.trigger
      × CatchesUp last_seen rest more
