-- ===== src/Cron/Parse/Values.antt =====
-- crates/camp-core/src/orders/cron.rs: a parsed field allows the values that its items name.
use mathlib.Core.Path.{subst}
use gascamp.Common.{
  ◌≡◌, refl, ap, ◌∙◌, ℕ, suc, ◌-◌, ◌<◌, ◌≤◌, String, Bool, true, ◌&&◌, Option, none, some, List, [],
  ◌∷◌, leb, leb→le, length, is_empty, split, split_once_at, ◌==◌, ◌⊎◌, inl, inr, ◌↔◌, arith,
  Bool-cases, Option-cases,
}
use gascamp.Ids.Unsigned.{parse_unsigned}
use gascamp.Cron.{FieldSet, get_or_false, contains}
use gascamp.Cron.Parse.{
  Parsed, parsed, failed, ◌>>=◌, or_fail, parse_value, Item, item_step, item_range, item_parts,
  parse_item, parse_parts, single_value, from_to, normalized, mark, mark_items, falses, store,
  parse_field, u8_max,
}
use gascamp.Cron.Parse.Fields.{
  Steps, InItem, Steps-le, slot, Slots, length-mark, mark-get, get-falses, get-bound, length-falses,
}

-- Past a `?` both parts have succeeded.
>>=-eq-parsed {ℓ μ} :
    {A : Type ℓ} {C : Type μ} (m : Parsed A) (rest : A → Parsed C) {c : C}
    → (m >>= rest) ≡ parsed c
    → (a : A) × (m ≡ parsed a) × (rest a ≡ parsed c)
>>=-eq-parsed (failed e) rest h = absurd (cc)
>>=-eq-parsed (parsed a) rest h = (a, refl, h)

module _ (name : String) (min max : ℕ) (legal : min ≤ max) where
  parse_value-bounds :
      (text : String) (v : ℕ) → parse_value name min max text ≡ parsed v → (min ≤ v) × (v ≤ max)
  unfolding parse_value
  parse_value-bounds text v h =
      let (u, e, h₁) = >>=-eq-parsed (or_fail (parse_unsigned u8_max text) _) _ h in
      (ground (arith, h₁), ground (arith, h₁))

  item_range-bounds :
      (range : String) (lo hi : ℕ)
      → ◌≡◌ {A = Parsed (ℕ × ℕ)} (item_range name min max range) (parsed (lo, hi))
      → (min ≤ lo) × (hi ≤ max)
  unfolding item_range
  item_range-bounds range lo hi h = elim (Bool-cases (range == "*")) [
    | inl star ↦ (ground (arith, star, h, legal), ground (arith, star, h, legal))
    | inr list ↦ elim (Option-cases (split_once_at b'-' range)) [
      | inl single ↦
          (let h₀ : ◌≡◌ {A = Parsed (ℕ × ℕ)} (single_value name min max range) (parsed (lo, hi)) =
              ground (arith, list, single, h) in
            let (v, e, h₁) = >>=-eq-parsed (parse_value name min max range) _ h₀ in
            let b = parse_value-bounds range v e in
            (ground (arith, h₁, b.0), ground (arith, h₁, b.1)))
      | inr ((x, y), two) ↦
          (let h₀ : ◌≡◌ {A = Parsed (ℕ × ℕ)} (from_to name min max x y) (parsed (lo, hi)) =
              ground (arith, list, two, h) in
            let (l, e, h₁) = >>=-eq-parsed (parse_value name min max x) _ h₀ in
            let (u, e', h₂) = >>=-eq-parsed (parse_value name min max y) _ h₁ in
            let b = parse_value-bounds x l e in
            let b' = parse_value-bounds y u e' in
            (ground (arith, h₂, b.0), ground (arith, h₂, b'.1)))
    ]
  ]

  item_step-positive : (o : Option String) (step : ℕ) → item_step name o ≡ parsed step → 0 < step
  item_step-positive none step h = ground (arith, h)
  item_step-positive (some s) step h =
      let (u, e, h₁) = >>=-eq-parsed (or_fail (parse_unsigned u8_max s) _) _ h in ground (arith, h₁)

  record IsLegal (it : Item) : Type 0 where
    low : min ≤ it.lo
    ordered : it.lo ≤ it.hi
    high : it.hi ≤ max
    positive : 0 < it.step

  parse_item-IsLegal :
      (item : String) (it : Item) → parse_item name min max item ≡ parsed it → IsLegal it
  unfolding parse_item
  parse_item-IsLegal item it h = elim (Bool-cases (is_empty item)) [
    | inl e ↦ absurd (ground (arith, e, h))
    | inr e ↦
        (let h₀ : parse_parts name min max (item_parts item) ≡ parsed it = ground (arith, e, h) in
          let (step, s, h₁) = >>=-eq-parsed (item_step name (item_parts item).1) _ h₀ in
          let ((lo, hi), r, h₂) =
            >>=-eq-parsed (item_range name min max (item_parts item).0) _ h₁ in
          let b = item_range-bounds (item_parts item).0 lo hi r in
          let positive = item_step-positive (item_parts item).1 step s in
          record {
            low = ground (arith, h₂, b.0);
            ordered = ground (arith, h₂);
            high = ground (arith, h₂, b.1);
            positive = ground (arith, h₂, positive);
          })
  ]

-- A value that one of the items of a list names.
abbrev pub InItems : String → ℕ → ℕ → List String → ℕ → Type 0
InItems name min max [] w = ⊥
InItems name min max (item ∷ rest) w =
    ((it : Item) × (parse_item name min max item ≡ parsed it) × InItem it w)
    ⊎ InItems name min max rest w

module _ (name : String) (wrap : Bool) (min max : ℕ) (legal : min ≤ max)
    (small : max ≤ u8_max) where
  InItems-bounds :
      (items : List String) (w : ℕ) → InItems name min max items w → (min ≤ w) × (w ≤ max)
  InItems-bounds [] w h = elim h [ ]
  InItems-bounds (item ∷ rest) w (inl (it, p, (s, le))) =
      let b = parse_item-IsLegal name min max legal item it p in
      (omega (arith, b.low, Steps-le s), omega (arith, b.high, le))
  InItems-bounds (item ∷ rest) w (inr h) = InItems-bounds rest w h

  -- the slot of such a value
  Marked : List String → ℕ → Type 0
  Marked items j = (w : ℕ) × InItems name min max items w × (slot wrap min w ≡ j)

  mark_items-Marked :
      (items : List String) (l allowed : List Bool)
      → mark_items name wrap min max items l ≡ parsed allowed
      → (length allowed ≡ length l)
        × ((j : ℕ)
            → j < length l
            → (get_or_false allowed j ≡ true) ↔ ((get_or_false l j ≡ true) ⊎ Marked items j))
  unfolding mark_items Marked
  mark_items-Marked [] l allowed h =
      let same : l ≡ allowed = ground (arith, h) in
      (rw same refl, λ j low. rw same (λ x. inl x, λ x. elim x [ inl y ↦ y | inr y ↦ absurd y.1 ]))
  mark_items-Marked (item ∷ rest) l allowed h =
      let (it, p, h₁) = >>=-eq-parsed (parse_item name min max item) _ h in
      let b = parse_item-IsLegal name min max legal item it p in
      let marked = mark (suc (it.hi - it.lo)) wrap min it.lo it.hi it.step l in
      let same = length-mark wrap min (suc (it.hi - it.lo)) it.lo it.hi it.step l in
      let (long, later) = mark_items-Marked rest marked allowed h₁ in
      (
        long ∙ same,
        λ j low.
            both it p j
              (mark-get wrap min (suc (it.hi - it.lo)) it.lo it.hi it.step l (omega arith) b.ordered
                (omega (arith, b.high, small)) b.positive j low)
              (later j (omega (arith, low, same))),
      )
    where
      both :
          {P Q R : Type 0} (it : Item)
          → parse_item name min max item ≡ parsed it
          → (j : ℕ) → P ↔ (Q ⊎ Slots wrap min it.lo it.hi it.step j)
          → R ↔ (P ⊎ Marked rest j)
          → R ↔ (Q ⊎ Marked (item ∷ rest) j)
      both {P} {Q} {R} it p j f g = (λ r. to (g.0 r), λ q. g.1 (back q))
        where
          this : Q ⊎ Slots wrap min it.lo it.hi it.step j → Q ⊎ Marked (item ∷ rest) j
          this (inl q) = inl q
          this (inr (w, s, le, e)) = inr (w, inl (it, p, (s, le)), e)

          to : P ⊎ Marked rest j → Q ⊎ Marked (item ∷ rest) j
          to (inl x) = this (f.0 x)
          to (inr (w, i, e)) = inr (w, inr i, e)

          back : Q ⊎ Marked (item ∷ rest) j → P ⊎ Marked rest j
          back (inl q) = inl (f.1 (inl q))
          back (inr (w, inl (it', p', (s, le)), e)) =
              let same : it' ≡ it = ground (arith, p, p') in
              inl (
                f.1 (
                  inr (
                    w,
                    subst (λ (x : Item). Steps x.step x.lo w) same s,
                    ground (arith, le, same),
                    e,
                  )))
          back (inr (w, inr i, e)) = inr (w, i, e)

  -- A field that is parsed allows a value exactly where an item of its comma-separated list names it:
  -- a value that is reached from the item's first one in its steps and is not past its last, with
  -- 7 named for 0 in the day of the week.
  pub parse_field_lem :
      ((wrap ≡ true) → (min ≡ 0) × (max ≡ 7))
      → (text : String) (set : FieldSet) → parse_field text name min max wrap ≡ parsed set
      → (value : ℕ)
      → (contains set value ≡ true)
        ↔ ((w : ℕ) × InItems name min max (split b',' text) w × (normalized wrap w ≡ value))
  unfolding parse_field contains Marked
  parse_field_lem weekday text set h value =
      let (allowed, m, h₁) = >>=-eq-parsed (mark_items name wrap min max (split b',' text) _) _ h in
      let (long, marks) = mark_items-Marked (split b',' text) _ allowed m in
      let is : contains set value ≡ (leb min value && get_or_false allowed (value - min)) =
        ground (arith, h₁) in
      (
        λ c.
            (let at : get_or_false allowed (value - min) ≡ true = ground (arith, is, c) in
              let low : leb min value ≡ true = ground (arith, is, c) in
              named low (
                (marks (value - min) (omega (arith, get-bound allowed (value - min) at, long))).0
                  at)),
        λ x.
            (let (low, high) = InItems-bounds (split b',' text) x.0 x.1 in
              let at =
                (marks (value - min)
                    (rw (length-falses (store wrap min max)) (fits x.0 low high x.2))).1
                  (inr (x.0, x.1, ap (λ v. v - min) x.2)) in
              ground (arith, is, at, above x.0 low, x.2)),
      )
    where
      above : (w : ℕ) → min ≤ w → min ≤ normalized wrap w
      above w low = ground (arith, low, weekday)

      fits :
          (w : ℕ) → min ≤ w → w ≤ max → normalized wrap w ≡ value → value - min < store wrap min max
      fits w low high e = ground (arith, low, high, e, weekday)

      named :
          leb min value ≡ true
          → (get_or_false (falses (store wrap min max)) (value - min) ≡ true)
            ⊎ Marked (split b',' text) (value - min)
          → (w : ℕ) × InItems name min max (split b',' text) w × (normalized wrap w ≡ value)
      named low (inl f) = absurd (ground (arith, f, get-falses (store wrap min max) (value - min)))
      named low (inr (w, i, e)) =
          (w, i, omega (arith, e, above w (InItems-bounds (split b',' text) w i).0, leb→le _ _ low))
