-- ===== src/Cron/Heap/Recomputing.antt =====
-- crates/camp-core/src/orders/cron.rs: what `recompute` catches up.
use mathlib.Core.Path.{subst}
use gascamp.Common.{
  ◌≡◌, refl, ap, ◌∙◌, ℕ, suc, ◌+◌, ◌-◌, ◌<◌, ◌≤◌, Option, none, some, List, [], ◌∷◌, All,
  All-append, Bool, ◌++◌, Option-cases, Bool-cases, inl, inr, arith, ltb, ◌⊎◌,
}
use gascamp.Cron.{CronExpr, Zone, next_after}
use gascamp.Cron.Search.{next_after-later}
use gascamp.Cron.Missed.{on_time_tolerance}
use gascamp.Cron.Missed.Selection.{most_recent_missed-IsSelected, IsSelected}
use gascamp.Cron.Heap.{
  Trigger, cron, event, Order, CatchUp, HeapEntry, get, reschedule, recompute_loop, missed_of,
  and_catch_up, with_catch_up,
}
use gascamp.Cron.Heap.Sorted.{All-push, IsHeap}
use gascamp.Cron.Heap.Declared.{in_window_of}
use gascamp.Cron.Heap.Firing.{reschedule-IsHeap}
use gascamp.Cron.Heap.Rearming.{
  count, all_rearmed, count-reschedule, caught_of, IsCatchUpOf, CatchesUp,
}

module _ (tz : Zone) where
  -- A catch-up: its order is one of the heap's, and it is after `last_seen`, not after `now`, and on
  -- time or within the window of the order.
  pub record IsCaught (orders : List Order) (now last_seen : ℕ) (c : CatchUp) : Type 0 where
    pub index : ℕ
    pub order : Order
    pub of : get orders index ≡ some order
    pub named : c.order ≡ order.name
    pub unseen : last_seen < c.scheduled
    pub past : c.scheduled ≤ now
    pub in_window :
        (now - c.scheduled ≤ on_time_tolerance) ⊎ (now - c.scheduled ≤ order.catch_up_window)

  all_later :
      (now index : ℕ) (trigger : Trigger) (entries : List HeapEntry)
      → All (λ (e : HeapEntry). now < e.at) entries
      → All (λ (e : HeapEntry). now < e.at) (reschedule tz now index trigger entries)
  unfolding reschedule
  all_later now index (event type label) entries h = h
  all_later now index (cron expr) entries h = elim (Option-cases (next_after tz expr now)) [
    | inl e ↦ rw (reschedule, e) h
    | inr (next, e) ↦
        rw (reschedule, e) (All-push _ _ entries (next_after-later tz expr now next e) h)
  ]

  -- what `recompute` gives and leaves, where its loop goes over orders that begin at an index, on a heap
  pub record Recomputed (orders : List Order) (now last_seen index : ℕ) (rest : List Order)
      (before : List HeapEntry) (catch_ups : List CatchUp) (entries : List HeapEntry) : Type 0 where
    pub caught : All (IsCaught orders now last_seen) catch_ups
    pub each : CatchesUp tz now last_seen rest catch_ups
    pub rearmed :
        (P : HeapEntry → Bool) → count P entries ≡ all_rearmed tz P now index rest + count P before
    pub later : All (λ (e : HeapEntry). now < e.at) entries
    pub heap : IsHeap orders entries

  missed-answers :
      (now last_seen : ℕ) (order : Order) (expr : CronExpr)
      → (r : Option ℕ) × (missed_of tz now last_seen order expr ≡ some r)
        × (((now ≤ last_seen) × (r ≡ none))
            ⊎ ((last_seen < now) × IsSelected tz expr order.catch_up_window now last_seen r))
  missed-answers now last_seen order expr = elim (Bool-cases (ltb last_seen now)) [
    | inr back ↦ (none, rw (missed_of, back) refl, inl (ground (arith, back), refl))
    | inl on ↦
        (let (r, e, x) =
            most_recent_missed-IsSelected tz expr order.catch_up_window now last_seen in
          (r, rw (missed_of, on) e, inr (ground (arith, on), x)))
  ]

  caught_of-IsCaught :
      (orders : List Order) (now last_seen index : ℕ) (order : Order) (expr : CronExpr)
      → get orders index ≡ some order
      → (r : Option ℕ) → IsSelected tz expr order.catch_up_window now last_seen r
      → All (IsCaught orders now last_seen) (caught_of tz now order r)
  caught_of-IsCaught orders now last_seen index order expr h none x = tt
  caught_of-IsCaught orders now last_seen index order expr h (some t) (after, m) = (
    record {
      index = index;
      order = order;
      of = h;
      named = refl;
      unseen = after;
      past = m.past;
      in_window = in_window_of tz expr order.catch_up_window now t m.recent;
    },
    tt,
  )

  and_catch_up-some :
      (now : ℕ) (order : Order) (r : Option ℕ) (c : List CatchUp) (left : List HeapEntry)
      → and_catch_up tz order (some r) (some (c, left)) ≡ some (caught_of tz now order r ++ c, left)
  and_catch_up-some now order none c left = refl
  and_catch_up-some now order (some t) c left = refl

  -- the catch-up of one order, put before the others
  own_catch_up :
      (orders : List Order) (now last_seen index : ℕ) (order : Order)
      → get orders index ≡ some order
      → (c : List CatchUp) (left : List HeapEntry) (trigger : Trigger)
      → (own : List CatchUp) × (with_catch_up tz now last_seen order trigger (some (c, left))
          ≡ some (own ++ c, left))
        × All (IsCaught orders now last_seen) own
        × IsCatchUpOf tz now last_seen order own trigger
  own_catch_up orders now last_seen index order h c left (event type label) = ([], refl, tt, refl)
  own_catch_up orders now last_seen index order h c left (cron expr) =
      let (r, missed, m) = missed-answers now last_seen order expr in
      let run =
        ap (λ o. and_catch_up tz order o (some (c, left))) missed
        ∙ and_catch_up-some now order r c left in
      (caught_of tz now order r, run, known r m, own r m)
    where
      known :
          (r : Option ℕ)
          → ((now ≤ last_seen) × (r ≡ none))
            ⊎ ((last_seen < now) × IsSelected tz expr order.catch_up_window now last_seen r)
          → All (IsCaught orders now last_seen) (caught_of tz now order r)
      known r (inl (back, gone)) = rw gone tt
      known r (inr (on, x)) = caught_of-IsCaught orders now last_seen index order expr h r x

      own :
          (r : Option ℕ)
          → ((now ≤ last_seen) × (r ≡ none))
            ⊎ ((last_seen < now) × IsSelected tz expr order.catch_up_window now last_seen r)
          → IsCatchUpOf tz now last_seen order (caught_of tz now order r) (cron expr)
      own r (inl (back, gone)) = inl (back, rw gone refl)
      own r (inr (on, x)) = inr (on, (r, x, refl))

  pub recompute_loop-Recomputed :
      (orders : List Order) (now last_seen index : ℕ) (rest : List Order) (entries : List HeapEntry)
      → ((i : ℕ) → get orders (index + i) ≡ get rest i)
      → IsHeap orders entries
      → All (λ (e : HeapEntry). now < e.at) entries
      → (catch_ups : List CatchUp) × (left : List HeapEntry) × (recompute_loop tz now last_seen
            index rest entries
          ≡ some (catch_ups, left))
        × Recomputed orders now last_seen index rest entries catch_ups left
  unfolding recompute_loop get
  recompute_loop-Recomputed orders now last_seen index [] entries at h l = (
    [],
    entries,
    refl,
    record { caught = tt; each = refl; rearmed = λ P. omega arith; later = l; heap = h },
  )
  recompute_loop-Recomputed orders now last_seen index (order ∷ rest) entries at h l =
      let (c, left, run, x) =
        recompute_loop-Recomputed orders now last_seen (index + 1) rest
          (reschedule tz now index order.trigger entries)
          (λ i. subst (λ n. get orders n ≡ get rest i) (omega arith) (at (suc i)))
          (reschedule-IsHeap tz orders now index order.trigger entries (rw here refl) h)
          (all_later now index order.trigger entries l) in
      let (own, run', known, is) =
        own_catch_up orders now last_seen index order here c left order.trigger in
      (
        own ++ c,
        left,
        ap (with_catch_up tz now last_seen order order.trigger) run ∙ run',
        record {
          caught = All-append _ own c known x.caught;
          each = (own, c, refl, is, x.each);
          rearmed = λ P.
              omega (arith, x.rearmed P, count-reschedule tz P now index order.trigger entries);
          later = x.later;
          heap = x.heap;
        },
      )
    where
      here : get orders index ≡ some order
      here = subst (λ n. get orders n ≡ some order) (omega arith) (at 0)
