-- ===== src/Readiness/Lists.antt =====
-- What a query lists, through WHERE, ORDER BY and the projection.
use gascamp.Common.{
  ◌≡◌, refl, ap, ◌∙◌, suc, String, Bool, true, false, not, ◌&&◌, ◌||◌, none, some, List, [], ◌∷◌,
  map, any, select, length, eqb, arith, find, Unique, eq_iff, ◌==◌, ◌≤◌, Bool-cases, inl, inr,
}
use gascamp.Schema.{Bead}
use gascamp.Readiness.{insert_in_order, order_by}

module _ {ℓ} {A : Type ℓ} (p : A → Bool) where
  pub any-select : (q : A → Bool) (xs : List A) → any p (select q xs) ≡ any (λ x. q x && p x) xs
  unfolding any select
  any-select q [] = refl
  any-select q (x ∷ xs) = ground (arith, any-select q xs)

  pub any-map {κ} :
      {B : Type κ} (f : B → A) (xs : List B) → any p (map f xs) ≡ any (λ x. p (f x)) xs
  unfolding any
  any-map f [] = refl
  any-map f (x ∷ xs) = ground (arith, any-map f xs)

  -- `count(*) = 0` and `NOT EXISTS`
  pub none_selected : (xs : List A) → eqb (length (select p xs)) 0 ≡ not (any p xs)
  unfolding any select
  none_selected [] = refl
  none_selected (x ∷ xs) = ground (arith, none_selected xs)

  pub length-select :
      (q : A → Bool)
      → ((x : A) → p x ≡ true → q x ≡ true)
      → (xs : List A) → length (select p xs) ≤ length (select q xs)
  unfolding select
  length-select q h [] = omega arith
  length-select q h (x ∷ xs) = ground (arith, length-select q h xs, h x)

any-insert_in_order :
    (p : Bead → Bool) (b : Bead) (rows : List Bead)
    → any p (insert_in_order b rows) ≡ (p b || any p rows)
unfolding any insert_in_order
any-insert_in_order p b [] = refl
any-insert_in_order p b (x ∷ rows) = ground (arith, any-insert_in_order p b rows)

pub any-order_by : (p : Bead → Bool) (rows : List Bead) → any p (order_by rows) ≡ any p rows
unfolding any order_by
any-order_by p [] = refl
any-order_by p (b ∷ rows) =
    any-insert_in_order p b (order_by rows) ∙ (ground (arith, any-order_by p rows))

length-insert_in_order :
    (b : Bead) (rows : List Bead) → length (insert_in_order b rows) ≡ suc (length rows)
unfolding insert_in_order
length-insert_in_order b [] = refl
length-insert_in_order b (x ∷ rows) = ground (arith, length-insert_in_order b rows)

pub length-order_by : (rows : List Bead) → length (order_by rows) ≡ length rows
unfolding order_by
length-order_by [] = refl
length-order_by (b ∷ rows) =
    length-insert_in_order b (order_by rows) ∙ ap suc (length-order_by rows)

pub length-map {ℓ κ} :
    {A : Type ℓ} {B : Type κ} (f : A → B) (xs : List A) → length (map f xs) ≡ length xs
length-map f [] = refl
length-map f (x ∷ xs) = ap suc (length-map f xs)

module _ {ℓ} {R : Type ℓ} (key : R → String) where
  pub absent :
      (k : String) (p : R → Bool) (rows : List R)
      → find key k rows ≡ none
      → any (λ r. p r && key r == k) rows ≡ false
  unfolding find any
  absent k p [] h = refl
  absent k p (r ∷ rows) h = ground (arith, absent k p rows)

  -- With a primary key, the rows that have a key are the row that a SELECT by it returns.
  pub any-Unique :
      (k : String) (p : R → Bool) (rows : List R) (r : R)
      → Unique key rows
      → find key k rows ≡ some r
      → any (λ x. p x && key x == k) rows ≡ p r
  unfolding find any
  any-Unique k p [] r u h = absurd (cc)
  any-Unique k p (x ∷ rows) r u h = elim (Bool-cases (key x == k)) [
    | inl y ↦
        (let same : x ≡ r = ground arith in
          let q : key x ≡ k = (eq_iff (key x) k).0 y in
          let rest = absent k p rows (rw (← q) u.0) in rw (← same) (ground arith))
    | inr n ↦ ground (arith, any-Unique k p rows r u.1)
  ]
