-- ===== src/Orders/Pending.antt =====
-- crates/camp-core/src/orders/mod.rs: the fires that the start of campd finds without a response.
use mathlib.Core.Path.{subst}
use gascamp.Common
use gascamp.Common.{
  ◌≡◌, refl, sym, ap, ◌∙◌, ℕ, ◌≤◌, String, Bool, true, false, not, ◌&&◌, ◌||◌, Option, none, some,
  List, [], ◌∷◌, any, eqb, select, is_empty, arith, Bool-cases, Option-cases, inl, inr, ◌==◌,
  eq_iff,
}
use gascamp.Error.{ok, ◌>>=◌, >>=-eq-ok}
use gascamp.Event.{Event, EventType, as_str}
use gascamp.Schema.{ℤ, pos}
use gascamp.Ids.{i64_max}
use gascamp.Ledger.{Db, events_of_type, has_event_with_actor}
use gascamp.Readiness.Lists.{any-select}
use gascamp.Orders.{
  PendingCook, cook_actor, parse_cook_actor, actor_seq, is_int, pending_cook_from_fired, responded,
  has_event_with_data_i64, fire_response_exists, collect, queue, unresponded_fires,
}
use gascamp.Orders.Actors.{parse_cook_actor-cook_actor}

module _ {V : Type 0} (texts : V → String → Option String) (ints : V → String → Option ℤ) where
  abbrev pub is_fired : ℕ → Event V → Bool
  is_fired seq e = as_str e.kind == as_str EventType.order_fired && eqb e.seq seq

  -- a cook of the fire is in the queue
  abbrev pub is_queued : ℕ → List PendingCook → Bool
  is_queued seq pending = any (λ (c : PendingCook). eqb c.fired_seq seq) pending

  any-implied :
      (p q : Event V → Bool) (es : List (Event V))
      → ((e : Event V) → p e ≡ true → q e ≡ true)
      → any p es ≡ true
      → any q es ≡ true
  unfolding any
  any-implied p q [] h k = k
  any-implied p q (e ∷ es) h k = ground (arith, h e, any-implied p q es h)

  -- An actor of the cook is one that the reconciliation reads.
  reads_actor :
      (name : String) (seq : ℕ)
      → is_empty name ≡ false
      → seq ≤ i64_max
      → (e : Event V) → (e.actor == cook_actor name seq) ≡ true
      → is_int (pos seq) (actor_seq e.actor) ≡ true
  unfolding parse_cook_actor Common.strip_prefix
  reads_actor name seq named small e h =
      let same : e.actor ≡ cook_actor name seq = (eq_iff e.actor (cook_actor name seq)).0 h in
      rw (same, parse_cook_actor-cook_actor name seq named small) (ground arith)

  exists-responded :
      (db : Db V) (name : String) (seq : ℕ)
      → is_empty name ≡ false
      → seq ≤ i64_max
      → fire_response_exists texts ints db name seq ≡ true
      → responded texts ints db (pos seq) ≡ true
  unfolding fire_response_exists responded has_event_with_actor has_event_with_data_i64
      events_of_type
  exists-responded db name seq named small h =
      let cooked = λ (e : Event V). as_str e.kind == as_str EventType.run_cooked in
      let failed = λ (e : Event V). as_str e.kind == as_str EventType.order_failed in
      let a = any-select (λ (e : Event V). is_int (pos seq) (actor_seq e.actor)) cooked db.events in
      let b =
        any-select (λ (e : Event V). is_int (pos seq) (ints e.payload "fired_seq")) failed
          db.events in
      let c =
        any-implied
          (λ e. as_str e.kind == as_str EventType.run_cooked && e.actor == cook_actor name seq)
          (λ e.
            as_str e.kind == as_str EventType.run_cooked && is_int (pos seq) (actor_seq e.actor))
          db.events (λ e k. ground (arith, reads_actor name seq named small e, k)) in
      ground (arith, h, a, b, c)

  cook_of :
      (e : Event V) (cook : Option PendingCook)
      → pending_cook_from_fired texts ints e ≡ ok cook
      → (seq : ℕ) (xs : List PendingCook)
      → is_queued seq (queue texts ints cook xs) ≡ (is_fired seq e || is_queued seq xs)
  unfolding pending_cook_from_fired any
  cook_of e cook h seq xs = elim (Bool-cases (as_str e.kind == as_str EventType.order_fired)) [
    | inr other ↦
        (let c : none ≡ cook = ground (arith, other, h) in rw (← c) (ground (arith, other)))
    | inl fired ↦ elim (Option-cases (texts e.payload "order")) [
      | inl gone ↦ absurd (ground (arith, fired, gone, h))
      | inr (order, o) ↦
          (let c : some (record { order = order; fired_seq = e.seq }) ≡ cook =
              ground (arith, fired, o, h) in
            rw (← c) (ground (arith, fired)))
    ]
  ]

  collect-queued :
      (db : Db V) (seq : ℕ) (es : List (Event V)) (pending : List PendingCook)
      → collect texts ints db es ≡ ok pending
      → is_queued seq pending ≡ (
          any (λ (e : Event V). as_str e.kind == as_str EventType.order_fired && eqb e.seq seq) es
          && not (responded texts ints db (pos seq)))
  unfolding collect any pending_cook_from_fired
  collect-queued db seq [] pending h = ground (arith, h)
  collect-queued db seq (e ∷ es) pending h =
      elim (Bool-cases (responded texts ints db (pos e.seq))) [
        | inl yes' ↦
            (let ih = collect-queued db seq es pending (ground (arith, yes', h)) in
              ih ∙ answered yes')
        | inr no' ↦
            (let h₀ : (pending_cook_from_fired texts ints e
                    >>= (λ cook. collect texts ints db es >>= (λ p. ok (queue texts ints cook p))))
                  ≡ ok pending =
                rw (← h) (rw (collect, no') refl) in
              let (cook, c, h₁) = >>=-eq-ok (pending_cook_from_fired texts ints e) _ h₀ in
              let (later, l, h₂) = >>=-eq-ok (collect texts ints db es) _ h₁ in
              let ih = collect-queued db seq es later l in
              let q = cook_of e cook c seq later in
              let p : queue texts ints cook later ≡ pending = ground (arith, h₂) in
              sym (ap (is_queued seq) p) ∙ (q ∙ (ground (arith, ih, open_fire no'))))
      ]
    where
      answered :
          responded texts ints db (pos e.seq) ≡ true
          → (any (is_fired seq) es && not (responded texts ints db (pos seq)))
            ≡ (any (is_fired seq) (e ∷ es) && not (responded texts ints db (pos seq)))
      answered y = elim (Bool-cases (eqb e.seq seq)) [
        | inl same ↦
            (let r : responded texts ints db (pos seq) ≡ true =
                subst (λ n. responded texts ints db (pos n) ≡ true) (ground (arith, same)) y in
              ground (arith, r))
        | inr other ↦ ground (arith, other)
      ]

      open_fire :
          responded texts ints db (pos e.seq) ≡ false
          → eqb e.seq seq ≡ true
          → responded texts ints db (pos seq) ≡ false
      open_fire n same =
          subst (λ n. responded texts ints db (pos n) ≡ false) (ground (arith, same)) n

  -- When campd looks for fires without a response at its start, a seq is queued exactly where an
  -- `order.fired` event has it and no response carries it; and a fire, of an order whose name is not
  -- empty, that the check before a cook finds answered is not queued.
  pub unresponded_fires_lem :
      (db : Db V) (pending : List PendingCook) (seq : ℕ)
      → unresponded_fires texts ints db ≡ ok pending
      → seq ≤ i64_max
      → (is_queued seq pending
          ≡ (any (is_fired seq) db.events && not (responded texts ints db (pos seq))))
        × ((name : String)
            → (not (is_empty name)
                && fire_response_exists texts ints db name seq
                && is_queued seq pending)
              ≡ false)
  unfolding unresponded_fires events_of_type any
  unresponded_fires_lem db pending seq h small =
      let q = collect-queued db seq _ pending h in
      let s =
        any-select (is_fired seq) (λ e. as_str e.kind == as_str EventType.order_fired) db.events in
      let twice = any-twice db.events in
      let all : is_queued seq pending
          ≡ (any (is_fired seq) db.events && not (responded texts ints db (pos seq))) =
        ground (arith, q, s, twice) in
      (all, λ name. excluded all name)
    where
      excluded :
          is_queued seq pending
            ≡ (any (is_fired seq) db.events && not (responded texts ints db (pos seq)))
          → (name : String)
          → (not (is_empty name)
              && fire_response_exists texts ints db name seq
              && is_queued seq pending)
            ≡ false
      excluded all name = elim (Bool-cases (is_empty name)) [
        | inl e ↦ ground (arith, e)
        | inr n ↦ elim (Bool-cases (fire_response_exists texts ints db name seq)) [
          | inl x ↦ (let r = exists-responded db name seq n small x in ground (arith, all, r))
          | inr x ↦ ground (arith, n, x)
        ]
      ]

      any-twice :
          (es : List (Event V))
          → any (λ e. as_str e.kind == as_str EventType.order_fired && is_fired seq e) es
            ≡ any (is_fired seq) es
      any-twice [] = refl
      any-twice (e ∷ es) = ground (arith, any-twice es)
