-- ===== src/Ledger/Consume/Pages.antt =====
-- Pages of a numbered log.
use mathlib.Core.Path.{subst}
use gascamp.Common.{
  ◌≡◌, refl, ap, ◌∙◌, ℕ, zero, suc, ◌+◌, ◌≤◌, Bool, List, [], ◌∷◌, ◌++◌, leb, select, length, arith,
  Bool-cases, inl, inr,
}
use gascamp.Event.{Event}
use gascamp.Ledger.{Db}
use gascamp.Ledger.Numbering.{IsNumberedFrom}
use gascamp.Ledger.Consume.{take}

abbrev pub drop {ℓ} : {A : Type ℓ} → ℕ → List A → List A
drop zero xs = xs
drop (suc n) [] = []
drop (suc n) (x ∷ xs) = drop n xs

pub take-drop {ℓ} : {A : Type ℓ} (n : ℕ) (xs : List A) → take n xs ++ drop n xs ≡ xs
take-drop zero xs = refl
take-drop (suc n) [] = refl
take-drop (suc n) (x ∷ xs) = ap (λ ys. x ∷ ys) (take-drop n xs)

module _ {V : Type 0} where
  abbrev pub from : ℕ → Event V → Bool
  from n e = leb n e.seq

  -- the events past a cursor
  abbrev pub pending : ℕ → Db V → List (Event V)
  pending at db = select (from (at + 1)) db.events

  all_kept : (n b : ℕ) (xs : List (Event V)) → b ≤ n → IsNumberedFrom n xs → select (from b) xs ≡ xs
  unfolding select
  all_kept n b [] h k = refl
  all_kept n b (x ∷ xs) h k = ground (arith, k.0, all_kept (n + 1) b xs (omega arith) k.1)

  -- the rest of a numbered list, after a prefix
  pub select-drop :
      (n k b : ℕ) (xs : List (Event V))
      → IsNumberedFrom n xs
      → b ≡ n + length (take k xs)
      → select (from b) xs ≡ drop k xs
  unfolding select
  select-drop n zero b xs h q = all_kept n b xs (omega (arith, q)) h
  select-drop n (suc k) b [] h q = refl
  select-drop n (suc k) b (x ∷ xs) h q =
      ground (arith, h.0, q, select-drop (n + 1) k b xs h.1 (omega (arith, q)))

  pub select-select :
      (a b : ℕ) (xs : List (Event V))
      → a ≤ b
      → select (from b) (select (from a) xs) ≡ select (from b) xs
  unfolding select
  select-select a b [] h = refl
  select-select a b (x ∷ xs) h = ground (arith, select-select a b xs h)

  pub numbered-select :
      (n b : ℕ) (xs : List (Event V))
      → n ≤ b
      → IsNumberedFrom n xs
      → IsNumberedFrom b (select (from b) xs)
  unfolding select
  numbered-select n b [] h k = tt
  numbered-select n b (x ∷ xs) h k = elim (Bool-cases (from b x)) [
    | inl y ↦
        (let same : n ≡ b = ground (arith, k.0) in
          rw y (
            rw (all_kept (n + 1) b xs (omega (arith, same)) k.1)
              (k.0 ∙ same, subst (λ (m : ℕ). IsNumberedFrom (m + 1) xs) same k.1)))
    | inr q ↦ rw q (numbered-select (n + 1) b xs (ground (arith, k.0)) k.1)
  ]

  pub numbered-take :
      (n k : ℕ) (xs : List (Event V)) → IsNumberedFrom n xs → IsNumberedFrom n (take k xs)
  numbered-take n zero xs h = tt
  numbered-take n (suc k) [] h = tt
  numbered-take n (suc k) (x ∷ xs) h = (h.0, numbered-take (n + 1) k xs h.1)

  pub numbered-drop :
      (n k : ℕ) (xs : List (Event V))
      → IsNumberedFrom n xs
      → IsNumberedFrom (n + length (take k xs)) (drop k xs)
  numbered-drop n zero xs h = subst (λ (m : ℕ). IsNumberedFrom m xs) (omega arith) h
  numbered-drop n (suc k) [] h = tt
  numbered-drop n (suc k) (x ∷ xs) h =
      subst (λ (m : ℕ). IsNumberedFrom m (drop k xs)) (omega arith) (numbered-drop (n + 1) k xs h.1)

  pub length-drop :
      (n : ℕ) (xs : List (Event V)) → length (take n xs) + length (drop n xs) ≡ length xs
  length-drop zero xs = omega arith
  length-drop (suc n) [] = omega arith
  length-drop (suc n) (x ∷ xs) = omega (arith, length-drop n xs)
