-- ===== src/Patrol/Timers/Sorted.antt =====
-- The order in which timers fire.
use Prim.Native.Nat.{Ordering}
use Prim.Native.String.compare
use Prim.Native.String.{compare}
use gascamp.Common.{
  ◌≡◌, sym, String, ap, ◌∙◌, ℕ, ◌<◌, Bool, true, false, List, [], ◌∷◌, map, arith, All, All-map,
  Bool-cases, inl, inr, ◌⊎◌,
}
use gascamp.Patrol.Timers.{Entry, StallFire, fired, insert_fire, in_order, fires_before}

flip : (a b : String) → compare a b ≡ Ordering.gt → compare b a ≡ Ordering.lt
flip String.[] String.[] h = absurd (let e = sym compare.nil-nil ∙ h in cc)
flip String.[] (String.◌∷◌ d b) h = absurd (let e = sym (compare.nil-cons d b) ∙ h in cc)
flip (String.◌∷◌ c a) String.[] h = compare.nil-cons c a
flip (String.◌∷◌ c a) (String.◌∷◌ d b) h =
    compare.cons-cons d c b a
    ∙ (let e = sym (compare.cons-cons c d a b) ∙ h in ground (arith, e, flip a b))

abbrev not_after : Ordering → Bool
not_after Ordering.gt = false
not_after _ = true

not_after_trans :
    (a b c : String)
    → not_after (compare a b) ≡ true
    → not_after (compare b c) ≡ true
    → not_after (compare a c) ≡ true
not_after_trans String.[] b String.[] h k = ap not_after compare.nil-nil
not_after_trans String.[] b (String.◌∷◌ z c) h k = ap not_after (compare.nil-cons z c)
not_after_trans (String.◌∷◌ x a) String.[] c h k =
    absurd (let e = compare.cons-nil x a in ground (arith, e, h))
not_after_trans (String.◌∷◌ x a) (String.◌∷◌ y b) String.[] h k =
    absurd (let e = compare.cons-nil y b in ground (arith, e, k))
not_after_trans (String.◌∷◌ x a) (String.◌∷◌ y b) (String.◌∷◌ z c) h k =
    let e = compare.cons-cons x y a b in
    let f = compare.cons-cons y z b c in
    let g = compare.cons-cons x z a c in ground (arith, e, f, g, h, k, not_after_trans a b c)

-- by (deadline, session)
abbrev Earlier : ℕ → String → ℕ → String → Type 0
Earlier d s d' s' = (d < d') ⊎ ((d ≡ d') × (not_after (compare s s') ≡ true))

-- No fire is after one that follows it.
abbrev pub IsSorted : List StallFire → Type 0
IsSorted [] = Unit
IsSorted (x ∷ rest) =
    All (λ (y : StallFire). Earlier x.deadline x.session y.deadline y.session) rest × IsSorted rest

All-insert_fire :
    (P : Entry → Type 0) (e : Entry) (due : List Entry)
    → P e
    → All P due
    → All P (insert_fire e due)
unfolding insert_fire
All-insert_fire P e [] p h = (p, tt)
All-insert_fire P e (x ∷ due) p h = elim (Bool-cases (fires_before e x)) [
  | inl y ↦ rw y (p, h)
  | inr n ↦ rw n (h.0, All-insert_fire P e due p h.1)
]

All-in_order : (P : Entry → Type 0) (due : List Entry) → All P due → All P (in_order due)
unfolding in_order
All-in_order P [] h = tt
All-in_order P (e ∷ due) h = All-insert_fire P e (in_order due) h.0 (All-in_order P due h.1)

abbrev IsEarlier : Entry → Entry → Type 0
IsEarlier a b = Earlier a.deadline a.session b.deadline b.session

-- the order of the entries, as they fire
abbrev Sorted : List Entry → Type 0
Sorted [] = Unit
Sorted (x ∷ rest) = All (IsEarlier x) rest × Sorted rest

fires_before-IsEarlier : (a b : Entry) → fires_before a b ≡ true → IsEarlier a b
fires_before-IsEarlier a b h = ground (arith, h)

other_first : (a b : Entry) → fires_before a b ≡ false → IsEarlier b a
other_first a b h = ground (arith, h, flip a.session b.session)

IsEarlier-trans : (a b c : Entry) → IsEarlier a b → IsEarlier b c → IsEarlier a c
IsEarlier-trans a b c (inl h) (inl k) = inl (omega (arith, h, k))
IsEarlier-trans a b c (inl h) (inr (k, q)) = inl (omega (arith, h, k))
IsEarlier-trans a b c (inr (h, p)) (inl k) = inl (omega (arith, h, k))
IsEarlier-trans a b c (inr (h, p)) (inr (k, q)) =
    inr (h ∙ k, not_after_trans a.session b.session c.session p q)

Sorted-insert_fire : (e : Entry) (due : List Entry) → Sorted due → Sorted (insert_fire e due)
unfolding insert_fire
Sorted-insert_fire e [] h = (tt, tt)
Sorted-insert_fire e (x ∷ due) h = elim (Bool-cases (fires_before e x)) [
  | inl y ↦
      (let first = fires_before-IsEarlier e x y in
        rw y (
          (first, All-map (IsEarlier x) (IsEarlier e) (λ z. IsEarlier-trans e x z first) due h.0),
          h,
        ))
  | inr n ↦
      rw n
        (All-insert_fire (IsEarlier x) e due (other_first e x n) h.0, Sorted-insert_fire e due h.1)
]

pub Sorted-in_order : (due : List Entry) → Sorted (in_order due)
unfolding in_order
Sorted-in_order [] = tt
Sorted-in_order (e ∷ due) = Sorted-insert_fire e (in_order due) (Sorted-in_order due)

All-fired :
    (P : StallFire → Type 0) (due : List Entry) → All (λ e. P (fired e)) due → All P (map fired due)
All-fired P [] h = tt
All-fired P (e ∷ due) h = (h.0, All-fired P due h.1)

pub Sorted-fired : (due : List Entry) → Sorted due → IsSorted (map fired due)
Sorted-fired [] h = tt
Sorted-fired (e ∷ due) h = (
  All-fired (λ (y : StallFire). Earlier e.deadline e.session y.deadline y.session) due h.0,
  Sorted-fired due h.1,
)
