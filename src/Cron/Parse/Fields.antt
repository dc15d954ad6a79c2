-- ===== src/Cron/Parse/Fields.antt =====
-- crates/camp-core/src/orders/cron.rs: which values a parsed field allows.
use gascamp.Common.{
  ◌≡◌, refl, sym, ap, ◌∙◌, ℕ, zero, suc, ◌+◌, ◌-◌, ◌<◌, ◌≤◌, Bool, true, false, ◌&&◌, ◌||◌, List,
  [], ◌∷◌, leb, eqb, ltb, leb→le, length, ◌⊎◌, inl, inr, ◌↔◌, arith, Bool-cases,
}
use gascamp.Cron.{get_or_false}
use gascamp.Cron.Parse.{Item, set_true, normalized, mark, falses, u8_max}

get-set_true :
    (l : List Bool) (i j : ℕ)
    → get_or_false (set_true l i) j ≡ (get_or_false l j || (eqb i j && ltb j (length l)))
unfolding get_or_false set_true
get-set_true [] i j = ground arith
get-set_true (b ∷ l) zero zero = ground arith
get-set_true (b ∷ l) zero (suc j) = ground arith
get-set_true (b ∷ l) (suc i) zero = ground arith
get-set_true (b ∷ l) (suc i) (suc j) = ground (arith, get-set_true l i j)

length-set_true : (l : List Bool) (i : ℕ) → length (set_true l i) ≡ length l
unfolding set_true
length-set_true [] i = refl
length-set_true (b ∷ l) zero = refl
length-set_true (b ∷ l) (suc i) = ap suc (length-set_true l i)

pub get-bound : (l : List Bool) (j : ℕ) → get_or_false l j ≡ true → j < length l
unfolding get_or_false
get-bound [] j h = absurd (ground arith)
get-bound (b ∷ l) zero h = omega arith
get-bound (b ∷ l) (suc j) h = omega (arith, get-bound l j h)

pub get-falses : (n j : ℕ) → get_or_false (falses n) j ≡ false
unfolding get_or_false falses
get-falses zero j = refl
get-falses (suc n) zero = refl
get-falses (suc n) (suc j) = get-falses n j

pub length-falses : (n : ℕ) → length (falses n) ≡ n
unfolding falses
length-falses zero = refl
length-falses (suc n) = ap suc (length-falses n)

-- some steps from one value to another
pub data Steps (step : ℕ) : ℕ → ℕ → Type 0 where
  here : {v : ℕ} → Steps step v v
  on : {v w : ℕ} → Steps step (v + step) w → Steps step v w

pub Steps-le : {step v w : ℕ} → Steps step v w → v ≤ w
Steps-le here = omega arith
Steps-le (on s) = omega (arith, Steps-le s)

-- A value that an item names: reached from its first value in its steps, and not past its last.
abbrev pub InItem : Item → ℕ → Type 0
InItem it w = Steps it.step it.lo w × (w ≤ it.hi)

module _ (wrap : Bool) (min : ℕ) where
  -- the slot of a value
  abbrev pub slot : ℕ → ℕ
  slot v = normalized wrap v - min

  abbrev pub Slots : ℕ → ℕ → ℕ → ℕ → Type 0
  Slots v hi step j = (w : ℕ) × Steps step v w × (w ≤ hi) × (slot w ≡ j)

  pub length-mark :
      (fuel v hi step : ℕ) (l : List Bool) → length (mark fuel wrap min v hi step l) ≡ length l
  unfolding mark
  length-mark zero v hi step l = refl
  length-mark (suc fuel) v hi step l = ground (
    arith,
    length-set_true l (normalized wrap v - min),
    length-mark fuel (v + step) hi step (set_true l (normalized wrap v - min)),
  )

  pub mark-get :
      (fuel v hi step : ℕ) (l : List Bool)
      → hi - v < fuel
      → v ≤ hi
      → hi ≤ u8_max
      → 0 < step
      → (j : ℕ) → j < length l
      → (get_or_false (mark fuel wrap min v hi step l) j ≡ true)
        ↔ ((get_or_false l j ≡ true) ⊎ Slots v hi step j)
  unfolding mark
  mark-get zero v hi step l enough le small pos j low = absurd (omega (arith, enough))
  mark-get (suc fuel) v hi step l enough le small pos j low =
      elim (Bool-cases (leb (v + step) hi)) [
        | inr end ↦
            (let stop : get_or_false (mark (suc fuel) wrap min v hi step l) j
                  ≡ get_or_false slots j =
                ground (arith, end) in
              (λ h. first (set_iff.0 (sym stop ∙ h)), λ h. stop ∙ set_iff.1 (only end h)))
        | inl more ↦
            (let go : get_or_false (mark (suc fuel) wrap min v hi step l) j
                  ≡ get_or_false (mark fuel wrap min (v + step) hi step slots) j =
                ground (arith, more, small) in
              let ih =
                mark-get fuel (v + step) hi step slots (ground (arith, enough, more, pos))
                  (leb→le _ _ more) small pos j
                  (omega (arith, low, length-set_true l (normalized wrap v - min))) in
              (λ h. further (ih.0 (sym go ∙ h)), λ h. go ∙ ih.1 (next h)))
      ]
    where
      slots : List Bool
      slots = set_true l (normalized wrap v - min)

      set_iff :
          (get_or_false slots j ≡ true)
          ↔ ((get_or_false l j ≡ true) ⊎ (normalized wrap v - min ≡ j))
      set_iff = ground (arith, get-set_true l (normalized wrap v - min) j, low)

      first :
          (get_or_false l j ≡ true) ⊎ (normalized wrap v - min ≡ j)
          → (get_or_false l j ≡ true) ⊎ Slots v hi step j
      first (inl h) = inl h
      first (inr h) = inr (v, here, le, h)

      only :
          leb (v + step) hi ≡ false
          → (get_or_false l j ≡ true) ⊎ Slots v hi step j
          → (get_or_false l j ≡ true) ⊎ (normalized wrap v - min ≡ j)
      only end (inl h) = inl h
      only end (inr (w, here, low', h)) = inr h
      only end (inr (w, on s, low', h)) = absurd (ground (arith, Steps-le s, low', end))

      further :
          (get_or_false slots j ≡ true) ⊎ Slots (v + step) hi step j
          → (get_or_false l j ≡ true) ⊎ Slots v hi step j
      further (inl h) = first (set_iff.0 h)
      further (inr (w, s, low', h)) = inr (w, on s, low', h)

      next :
          (get_or_false l j ≡ true) ⊎ Slots v hi step j
          → (get_or_false slots j ≡ true) ⊎ Slots (v + step) hi step j
      next (inl h) = inl (set_iff.1 (inl h))
      next (inr (w, here, low', h)) = inl (set_iff.1 (inr h))
      next (inr (w, on s, low', h)) = inr (w, s, low', h)
