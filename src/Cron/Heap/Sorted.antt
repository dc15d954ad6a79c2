-- ===== src/Cron/Heap/Sorted.antt =====
-- crates/camp-core/src/orders/cron.rs: the order of the entries of a heap.
use gascamp.Common.{
  ◌≡◌, ℕ, ◌<◌, ◌≤◌, true, List, [], ◌∷◌, All, All-map, select, length, Bool-cases, inl, inr, arith,
  leb, is_some,
}
use gascamp.Cron.Heap.{Order, HeapEntry, push, get, entry_before}

module _ {κ} (P : HeapEntry → Type κ) where
  pub All-push : (e : HeapEntry) (xs : List HeapEntry) → P e → All P xs → All P (push e xs)
  unfolding push
  All-push e [] h k = (h, tt)
  All-push e (x ∷ xs) h k = elim (Bool-cases (entry_before e x)) [
    | inl y ↦ rw y (h, k)
    | inr n ↦ rw n (k.0, All-push e xs h k.1)
  ]

-- no entry is before one that stands in front of it
abbrev pub IsSorted : List HeapEntry → Type 0
IsSorted [] = Unit
IsSorted (x ∷ xs) = All (λ y. x.at ≤ y.at) xs × IsSorted xs

pub push-IsSorted : (e : HeapEntry) (xs : List HeapEntry) → IsSorted xs → IsSorted (push e xs)
unfolding push
push-IsSorted e [] h = (tt, tt)
push-IsSorted e (x ∷ xs) h = elim (Bool-cases (entry_before e x)) [
  | inl y ↦ rw y (
      (let le : e.at ≤ x.at = ground (arith, y) in
        ((le, All-map _ _ (λ z q. omega (arith, le, q)) xs h.0), h)))
  | inr n ↦ rw n (All-push _ e xs (ground (arith, n)) h.0, push-IsSorted e xs h.1)
]

unfoldable pub due : ℕ → List HeapEntry → ℕ
due now entries = length (select (λ e. leb e.at now) entries)

pub due-push :
    (now : ℕ) (e : HeapEntry) (xs : List HeapEntry) → now < e.at → due now (push e xs) ≡ due now xs
unfolding due push select
due-push now e [] h = ground arith
due-push now e (x ∷ xs) h = ground (arith, due-push now e xs h)

pub due-le : (now : ℕ) (xs : List HeapEntry) → due now xs ≤ length xs
unfolding due select
due-le now [] = omega arith
due-le now (x ∷ xs) = ground (arith, due-le now xs)

-- what every operation keeps: the order of the entries, and that each is of an order
pub record IsHeap (orders : List Order) (entries : List HeapEntry) : Type 0 where
  pub sorted : IsSorted entries
  pub known : All (λ e. is_some (get orders e.index) ≡ true) entries
