-- ===== src/Cron/Heap/Histories.antt =====
-- crates/camp-core/src/orders/cron.rs: the heaps that `arm`, `fire_due` and `recompute` make of a new
-- one, and what the last two do on them.
use mathlib.Core.Path.{subst}
use gascamp.Common.{
  ◌≡◌, refl, sym, ap, ℕ, zero, suc, true, some, List, [], ◌∷◌, ◌++◌, All-map, length, Option-cases,
  inl, inr, arith, is_some,
}
use gascamp.Cron.{Zone, next_after}
use gascamp.Cron.Heap.{
  Trigger, cron, event, Order, Fire, CatchUp, HeapEntry, CronHeap, push, get, arm, armed, fire_due,
  recompute, new, with_entries,
}
use gascamp.Cron.Heap.Sorted.{IsHeap, All-push, push-IsSorted, due-le}
use gascamp.Cron.Heap.Firing.{Fires, fire_loop-Fires}
use gascamp.Cron.Heap.Recomputing.{Recomputed, recompute_loop-Recomputed}

get-append :
    (orders : List Order) (o : Order) (i : ℕ)
    → is_some (get orders i) ≡ true
    → is_some (get (orders ++ o ∷ []) i) ≡ true
unfolding get
get-append [] o i h = absurd (cc)
get-append (x ∷ orders) o zero h = refl
get-append (x ∷ orders) o (suc i) h = get-append orders o i h

get-last :
    (orders : List Order) (o : Order) → is_some (get (orders ++ o ∷ []) (length orders)) ≡ true
unfolding get
get-last [] o = refl
get-last (x ∷ orders) o = get-last orders o

module _ (tz : Zone) where
  pub data HeapReached : CronHeap → Type 0 where
    created : HeapReached new
    arms :
        {heap heap' : CronHeap} (order : Order) (now : ℕ)
        → HeapReached heap
        → arm tz order now heap ≡ armed heap'
        → HeapReached heap'
    fires :
        {heap heap' : CronHeap} (now : ℕ) (declared : List Fire)
        → HeapReached heap
        → fire_due tz now heap ≡ some (declared, heap')
        → HeapReached heap'
    recomputes :
        {heap heap' : CronHeap} (now last_seen : ℕ) (catch_ups : List CatchUp)
        → HeapReached heap
        → recompute tz now last_seen heap ≡ some (catch_ups, heap')
        → HeapReached heap'

  fire_due-IsHeap :
      (heap : CronHeap) (now : ℕ)
      → IsHeap heap.orders heap.entries
      → (declared : List Fire) × (heap' : CronHeap) × (fire_due tz now heap
          ≡ some (declared, heap'))
        × (heap'.orders ≡ heap.orders)
        × Fires tz heap.orders now heap.entries declared heap'.entries
  unfolding fire_due
  fire_due-IsHeap heap now h =
      let (declared, left, run, x) =
        fire_loop-Fires tz heap.orders now (suc (length heap.entries)) heap.entries h
          (omega (arith, due-le now heap.entries)) in
      (
        declared,
        record { orders = heap.orders; entries = left },
        ap (with_entries heap.orders) run,
        refl,
        x,
      )

  -- On every heap `recompute` returns. The new heap has exactly one entry for each cron order that still
  -- fires within the search horizon, at its next fire after `now`, and the orders are as before. The
  -- catch-ups are, order by order: none where the clock has not gone forward, or else the one that the
  -- selection of missed fires gives since `last_seen`, if any; each is later than `last_seen` and no later
  -- than `now`, on time or within the window of its order.
  pub recompute-Recomputed :
      (heap : CronHeap) (now last_seen : ℕ)
      → (catch_ups : List CatchUp) × (heap' : CronHeap) × (recompute tz now last_seen heap
          ≡ some (catch_ups, heap'))
        × (heap'.orders ≡ heap.orders)
        × Recomputed tz heap.orders now last_seen 0 heap.orders [] catch_ups heap'.entries
  unfolding recompute
  recompute-Recomputed heap now last_seen =
      let (catch_ups, left, run, x) =
        recompute_loop-Recomputed tz heap.orders now last_seen 0 heap.orders []
          (λ i. ap (get heap.orders) (omega arith)) (record { sorted = tt; known = tt }) tt in
      (
        catch_ups,
        record { orders = heap.orders; entries = left },
        ap (with_entries heap.orders) run,
        refl,
        x,
      )

  arm-IsHeap :
      (order : Order) (now : ℕ) (heap heap' : CronHeap)
      → arm tz order now heap ≡ armed heap'
      → IsHeap heap.orders heap.entries
      → IsHeap heap'.orders heap'.entries
  unfolding arm
  arm-IsHeap order now heap heap' h k = go order.trigger refl
    where
      go : (trigger : Trigger) → order.trigger ≡ trigger → IsHeap heap'.orders heap'.entries
      go (event type label) e = absurd (ground (arith, e, h))
      go (cron expr) e = elim (Option-cases (next_after tz expr now)) [
        | inl n ↦ absurd (ground (arith, e, n, h))
        | inr (next, n) ↦
            (let same : record {
              orders = heap.orders ++ order ∷ [];
              entries = push (record { at = next; index = length heap.orders }) heap.entries;
            }
                  ≡ heap' =
                ground (arith, e, n, h) in
              subst (λ x. IsHeap x.orders x.entries) same
                (record {
                  sorted = push-IsSorted _ heap.entries k.sorted;
                  known = All-push _ _ heap.entries (get-last heap.orders order) (
                      All-map (λ (x : HeapEntry). is_some (get heap.orders x.index) ≡ true) _
                        (λ x. get-append heap.orders order x.index) heap.entries k.known);
                }))
      ]

  HeapReached-IsHeap : {heap : CronHeap} → HeapReached heap → IsHeap heap.orders heap.entries
  HeapReached-IsHeap created = unfold new in record { sorted = tt; known = tt }
  HeapReached-IsHeap (arms {heap = heap} {heap' = heap'} order now r h) =
      arm-IsHeap order now heap heap' h (HeapReached-IsHeap r)
  HeapReached-IsHeap (fires {heap = heap} {heap' = heap'} now declared r h) =
      let (d, left, run, same, x) = fire_due-IsHeap heap now (HeapReached-IsHeap r) in
      let e : left ≡ heap' = ground (arith, h, run) in
      subst (λ y. IsHeap y.orders y.entries) e
        (subst (λ o. IsHeap o left.entries) (sym same) x.heap)
  HeapReached-IsHeap (recomputes {heap = heap} {heap' = heap'} now last_seen c r h) =
      let (d, left, run, same, x) = recompute-Recomputed heap now last_seen in
      let e : left ≡ heap' = ground (arith, h, run) in
      subst (λ y. IsHeap y.orders y.entries) e
        (subst (λ o. IsHeap o left.entries) (sym same) x.heap)

  -- On every heap that arming, firing and recomputing make of a new one, `fire_due` returns. The fires are
  -- those of the entries that are due, one after the other: the deadline itself where it is on time, or
  -- else what the selection of missed fires gives from the second before the deadline, if anything, flagged
  -- as a catch-up exactly where it is more than the tolerance late. The heap that is left has exactly the
  -- entries that were not due, and for each that was due one at the next fire of its order after `now`, if
  -- it still fires; all of them are later than `now`, and the orders are as before.
  pub fire_due-Fires :
      {heap : CronHeap}
      → HeapReached heap
      → (now : ℕ)
      → (declared : List Fire) × (heap' : CronHeap) × (fire_due tz now heap
          ≡ some (declared, heap'))
        × (heap'.orders ≡ heap.orders)
        × Fires tz heap.orders now heap.entries declared heap'.entries
  fire_due-Fires {heap} r now = fire_due-IsHeap heap now (HeapReached-IsHeap r)
