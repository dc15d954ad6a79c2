-- ===== src/Cron/Heap/Declared.antt =====
-- crates/camp-core/src/orders/cron.rs: the fires that an entry of the heap declares.
use gascamp.Common.{
  ◌≡◌, refl, ℕ, ◌-◌, ◌≤◌, true, false, Option, none, some, List, [], ◌∷◌, All, Bool-cases, inl, inr,
  arith, ltb, leb, leb→le, ◌⊎◌,
}
use gascamp.Cron.{CronExpr, Zone}
use gascamp.Cron.Missed.{on_time_tolerance, is_recent, window_allows}
use gascamp.Cron.Missed.Selection.{most_recent_missed-IsSelected, IsSelected}
use gascamp.Cron.Heap.{
  Trigger, cron, event, Order, Fire, HeapEntry, get, fire_entry, late_fire, scan_from,
}
use mathlib.Core.Path.{subst}
use gascamp.Cron.Heap.Rearming.{second_before, late_fires, IsLate, IsFireOf}

module _ (tz : Zone) where
  -- A declared fire: its order is one of the heap's, its time is not after `now` and on time or
  -- within the window of the order, and it is flagged as a catch-up where it is not on time.
  pub record IsDeclared (orders : List Order) (now : ℕ) (fire : Fire) : Type 0 where
    pub index : ℕ
    pub order : Order
    pub of : get orders index ≡ some order
    pub named : fire.order ≡ order.name
    pub past : fire.scheduled ≤ now
    pub flagged : fire.catch_up ≡ ltb on_time_tolerance (now - fire.scheduled)
    pub in_window :
        (now - fire.scheduled ≤ on_time_tolerance) ⊎ (now - fire.scheduled ≤ order.catch_up_window)

  pub in_window_of :
      (expr : CronExpr) (window now t : ℕ)
      → is_recent tz expr window now t ≡ true
      → (now - t ≤ on_time_tolerance) ⊎ (now - t ≤ window)
  unfolding window_allows
  in_window_of expr window now t h = ground (arith, h)

  late_fire-IsDeclared :
      (orders : List Order) (now index : ℕ) (order : Order) (expr : CronExpr) (last_seen : ℕ)
      → get orders index ≡ some order
      → (r : Option ℕ) → IsSelected tz expr order.catch_up_window now last_seen r
      → All (IsDeclared orders now) (late_fires tz now order r)
  late_fire-IsDeclared orders now index order expr last_seen h none x = tt
  late_fire-IsDeclared orders now index order expr last_seen h (some t) (after, m) = (
    record {
      index = index;
      order = order;
      of = h;
      named = refl;
      past = m.past;
      flagged = refl;
      in_window = in_window_of expr order.catch_up_window now t m.recent;
    },
    tt,
  )

  late_fire-some :
      (now : ℕ) (order : Order) (r : Option ℕ)
      → late_fire tz order now (some r) ≡ some (late_fires tz now order r)
  late_fire-some now order none = refl
  late_fire-some now order (some t) = refl

  scan_from_lem : (now deadline : ℕ) → scan_from tz deadline ≡ second_before tz now deadline
  scan_from_lem now deadline = ground arith

  pub fire_entry-IsFireOf :
      (orders : List Order) (now : ℕ) (e : HeapEntry) (order : Order)
      → get orders e.index ≡ some order
      → e.at ≤ now
      → (fires : List Fire) × (fire_entry tz now e.at order ≡ some fires)
        × All (IsDeclared orders now) fires
        × IsFireOf tz now orders e fires
  unfolding fire_entry
  fire_entry-IsFireOf orders now e order h le =
      elim (Bool-cases (leb (now - e.at) on_time_tolerance)) [
        | inl prompt ↦ (
          record { order = order.name; scheduled = e.at; catch_up = false } ∷ [],
          rw (fire_entry, prompt) refl,
          (
            record {
              index = e.index;
              order = order;
              of = h;
              named = refl;
              past = le;
              flagged = ground (arith, prompt);
              in_window = inl (leb→le _ _ prompt);
            },
            tt,
          ),
          (order, h, inl (leb→le _ _ prompt, refl)),
        )
        | inr late ↦
            (let (fires, run, all, own) = go order.trigger refl late in
              (fires, run, all, (order, h, inr (ground (arith, late), own))))
      ]
    where
      go :
          (trigger : Trigger)
          → order.trigger ≡ trigger
          → leb (now - e.at) on_time_tolerance ≡ false
          → (fires : List Fire) × (fire_entry tz now e.at order ≡ some fires)
            × All (IsDeclared orders now) fires
            × IsLate tz now order e.at fires order.trigger
      go (event type label) q late = ([], rw (fire_entry, late, q) refl, tt, rw q refl)
      go (cron expr) q late =
          let (r, scanned, x) =
            most_recent_missed-IsSelected tz expr order.catch_up_window now (scan_from tz e.at) in
          (
            late_fires tz now order r,
            rw (fire_entry, late, q, scanned) (late_fire-some now order r),
            late_fire-IsDeclared orders now e.index order expr (scan_from tz e.at) h r x,
            rw q (
              r,
              subst (λ t. IsSelected tz expr order.catch_up_window now t r) (scan_from_lem now e.at)
                  x,
              refl,
            ),
          )
