-- ===== src/Cron/Heap/Firing.antt =====
-- crates/camp-core/src/orders/cron.rs: what `fire_due` declares, and that its loop ends.
use gascamp.Common.{
  ◌≡◌, refl, ◌∙◌, Bool, ℕ, zero, suc, ◌<◌, ◌≤◌, true, false, some, List, [], ◌∷◌, ◌++◌, All,
  All-map, All-append, select, Option-cases, Bool-cases, inl, inr, arith, leb, leb→le, is_some,
}
use gascamp.Cron.{Zone, next_after}
use gascamp.Cron.Search.{next_after-later}
use gascamp.Cron.Heap.{Trigger, cron, event, Order, Fire, HeapEntry, get, reschedule, fire_loop}
use mathlib.Core.Path.{subst}
use gascamp.Cron.Heap.Rearming.{
  count, kept, is_due, kept-later, kept-reschedule, select-reschedule, Declares,
}
use gascamp.Cron.Heap.Sorted.{All-push, IsSorted, push-IsSorted, due, due-push, IsHeap}
use gascamp.Cron.Heap.Declared.{IsDeclared, fire_entry-IsFireOf}

module _ (tz : Zone) where
  pub reschedule-IsHeap :
      (orders : List Order) (now index : ℕ) (trigger : Trigger) (entries : List HeapEntry)
      → is_some (get orders index) ≡ true
      → IsHeap orders entries
      → IsHeap orders (reschedule tz now index trigger entries)
  unfolding reschedule
  reschedule-IsHeap orders now index (event _ _) entries k h = h
  reschedule-IsHeap orders now index (cron expr) entries k h =
      elim (Option-cases (next_after tz expr now)) [
        | inl e ↦ rw (reschedule, e) h
        | inr (next, e) ↦
            rw (reschedule, e)
              (record {
                sorted = push-IsSorted _ entries h.sorted;
                known = All-push _ _ entries k h.known;
              })
      ]

  due-reschedule :
      (now index : ℕ) (trigger : Trigger) (entries : List HeapEntry)
      → due now (reschedule tz now index trigger entries) ≡ due now entries
  unfolding reschedule
  due-reschedule now index (event _ _) entries = refl
  due-reschedule now index (cron expr) entries = elim (Option-cases (next_after tz expr now)) [
    | inl e ↦ rw (reschedule, e) refl
    | inr (next, e) ↦
        rw (reschedule, e) (due-push now _ entries (next_after-later tz expr now next e))
  ]

  -- What `fire_due` declares of the entries that were in the heap, and what it leaves.
  pub record Fires (orders : List Order) (now : ℕ) (before : List HeapEntry) (fires : List Fire)
      (entries : List HeapEntry) : Type 0 where
    pub declared : All (IsDeclared tz orders now) fires
    pub each : Declares tz now orders (select (is_due now) before) fires
    pub rearmed : (P : HeapEntry → Bool) → count P entries ≡ kept tz P now orders before
    pub later : All (λ e. now < e.at) entries
    pub heap : IsHeap orders entries

  all_later :
      (now : ℕ) (e : HeapEntry) (rest : List HeapEntry)
      → leb e.at now ≡ false
      → IsSorted (e ∷ rest)
      → All (λ (x : HeapEntry). now < x.at) (e ∷ rest)
  all_later now e rest h s =
      let first : now < e.at = ground (arith, h) in
      (first, All-map (λ (y : HeapEntry). e.at ≤ y.at) _ (λ y q. omega (arith, first, q)) rest s.0)

  none_due :
      (now : ℕ) (es : List HeapEntry)
      → All (λ (e : HeapEntry). now < e.at) es
      → select (is_due now) es ≡ []
  unfolding select
  none_due now [] h = refl
  none_due now (e ∷ es) h = ground (arith, h.0, none_due now es h.1)

  pub fire_loop-Fires :
      (orders : List Order) (now fuel : ℕ) (entries : List HeapEntry)
      → IsHeap orders entries
      → due now entries < fuel
      → (fires : List Fire) × (left : List HeapEntry) × (fire_loop tz orders now fuel entries
          ≡ some (fires, left))
        × Fires orders now entries fires left
  unfolding fire_loop select
  fire_loop-Fires orders now zero entries h enough = absurd (omega (arith, enough))
  fire_loop-Fires orders now (suc fuel) [] h enough = (
    [],
    [],
    refl,
    record { declared = tt; each = refl; rearmed = λ P. refl; later = tt; heap = h },
  )
  fire_loop-Fires orders now (suc fuel) (e ∷ rest) h enough = elim (Bool-cases (leb e.at now)) [
    | inr over ↦ (
      [],
      e ∷ rest,
      ground (arith, over),
      record {
        declared = tt;
        each = rw (none_due now (e ∷ rest) (all_later now e rest over h.sorted)) refl;
        rearmed = λ P. kept-later tz P now orders (e ∷ rest) (all_later now e rest over h.sorted);
        later = all_later now e rest over h.sorted;
        heap = h;
      },
    )
    | inl now_due ↦ elim (Option-cases (get orders e.index)) [
      | inl gone ↦ absurd (ground (arith, gone, h.known.0))
      | inr (order, got) ↦
          (let (fires, f, d, own) =
              fire_entry-IsFireOf tz orders now e order got (leb→le _ _ now_due) in
            let next = reschedule tz now e.index order.trigger rest in
            let heap' =
              reschedule-IsHeap orders now e.index order.trigger rest h.known.0
                (record { sorted = h.sorted.1; known = h.known.1 }) in
            let (more, left, run, x) =
              fire_loop-Fires orders now fuel next heap' (fewer order now_due) in
            (
              fires ++ more,
              left,
              ground (arith, now_due, got, f, run),
              record {
                declared = All-append _ fires more d x.declared;
                each = rw now_due (
                  fires,
                  more,
                  refl,
                  own,
                  subst (λ due'. Declares tz now orders due' more)
                      (select-reschedule tz now e.index order.trigger rest) x.each,
                );
                rearmed = λ P.
                    x.rearmed P
                    ∙ kept-reschedule tz P now orders e.index order.trigger rest
                    ∙ (rw (now_due, got) refl);
                later = x.later;
                heap = x.heap;
              },
            ))
    ]
  ]
    where
      fewer :
          (order : Order)
          → leb e.at now ≡ true
          → due now (reschedule tz now e.index order.trigger rest) < fuel
      fewer order now_due =
          let same = due-reschedule now e.index order.trigger rest in
          let one : due now (e ∷ rest) ≡ suc (due now rest) =
            unfold due select in rw now_due refl in
          omega (arith, same, one, enough)
