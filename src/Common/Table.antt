-- ===== src/Common/Table.antt =====
-- The rows of a table with a TEXT primary key, and the statements that the program makes on them.
use Prim.Native.String.{String}
use mathlib.Core.Path.{◌≡◌, refl}
use mathlib.Core.Logic.{inl, inr}
use mathlib.Core.Bool.{Bool, true, false}
use mathlib.Core.Option.{Option, none, some}
use mathlib.Core.List.{List, [], ◌∷◌, ◌++◌}
use native.Mathlib.Omega.{arith}
use text.Mathlib.Text.{◌==◌}
use text.Mathlib.TextEquality.{eq_iff}
use gascamp.Common.Tests.{if◌then◌else◌, Bool-cases}
use gascamp.Common.Lists.{All}

module _ {ℓ} {R : Type ℓ} where
  -- `UPDATE rows SET f WHERE p`
  unfoldable pub update_where : (R → Bool) → (R → R) → List R → List R
  update_where p f [] = []
  update_where p f (r ∷ rows) = (if p r then f r else r) ∷ update_where p f rows

  -- `DELETE FROM rows WHERE p`
  unfoldable pub delete_where : (R → Bool) → List R → List R
  delete_where p [] = []
  delete_where p (r ∷ rows) = let rest = delete_where p rows in if p r then rest else r ∷ rest

  pub All-update_where {κ} :
      (P : R → Type κ) (p : R → Bool) (f : R → R) (rows : List R)
      → ((r : R) → p r ≡ true → P r → P (f r))
      → All P rows
      → All P (update_where p f rows)
  unfolding update_where
  All-update_where P p f [] keep h = tt
  All-update_where P p f (r ∷ rows) keep h = elim (Bool-cases (p r)) [
    | inl e ↦ (rw e (keep r e h.0), All-update_where P p f rows keep h.1)
    | inr e ↦ (rw e h.0, All-update_where P p f rows keep h.1)
  ]

  pub All-delete_where {κ} :
      (P : R → Type κ) (p : R → Bool) (rows : List R) → All P rows → All P (delete_where p rows)
  unfolding delete_where
  All-delete_where P p [] h = tt
  All-delete_where P p (r ∷ rows) h = elim (Bool-cases (p r)) [
    | inl e ↦ rw e (All-delete_where P p rows h.1)
    | inr e ↦ rw e (h.0, All-delete_where P p rows h.1)
  ]

-- The row that `a` holds, or else `b`'s.
abbrev pub or_else {ℓ} : {R : Type ℓ} → Option R → Option R → Option R
or_else (some r) b = some r
or_else none b = b

abbrev pub when_key {ℓ} : {R : Type ℓ} → Bool → R → Option R
when_key true r = some r
when_key false r = none

abbrev pub changed {ℓ} : {R : Type ℓ} → (R → Bool) → (R → R) → Option R → Option R
changed p f none = none
changed p f (some r) = some (if p r then f r else r)

module _ {ℓ} {R : Type ℓ} (key : R → String) where
  -- `SELECT * FROM rows WHERE key = ?1`
  unfoldable pub find : String → List R → Option R
  find k [] = none
  find k (r ∷ rows) = if key r == k then some r else find k rows

  pub find-append :
      (k : String) (rows : List R) (r : R)
      → find k (rows ++ r ∷ []) ≡ or_else (find k rows) (when_key (key r == k) r)
  unfolding find
  find-append k [] r = ground arith
  find-append k (x ∷ rows) r = ground (arith, find-append k rows r)

  -- An UPDATE that leaves the key alone, seen through a SELECT by key.
  pub find-update_where :
      (p : R → Bool) (f : R → R) (keeps : (r : R) → key (f r) ≡ key r) (k : String) (rows : List R)
      → find k (update_where p f rows) ≡ changed p f (find k rows)
  unfolding find update_where
  find-update_where p f keeps k [] = refl
  find-update_where p f keeps k (r ∷ rows) =
      ground (arith, keeps r, find-update_where p f keeps k rows)

  pub find-key : (k : String) (rows : List R) (r : R) → find k rows ≡ some r → key r ≡ k
  unfolding find
  find-key k [] r h = cc
  find-key k (x ∷ rows) r h = ground (arith, find-key k rows r, eq_iff (key x) k)

  -- What holds of every row holds of the row that a SELECT returns.
  pub All-find {κ} :
      (P : R → Type κ) (k : String) (rows : List R) (r : R)
      → All P rows
      → find k rows ≡ some r
      → P r
  unfolding find
  All-find P k [] r h e = absurd (cc)
  All-find P k (x ∷ rows) r h e = elim (Bool-cases (key x == k)) [
    | inl t ↦ (let q : x ≡ r = ground arith in rw (← q) h.0)
    | inr t ↦ All-find P k rows r h.1 (rw (← e) (rw t))
  ]

  -- PRIMARY KEY: no two rows have one key.
  abbrev pub Unique : List R → Type ℓ
  Unique [] = Unit
  Unique (r ∷ rows) = (find (key r) rows ≡ none) × Unique rows

  pub Unique-append :
      (rows : List R) (r : R) → Unique rows → find (key r) rows ≡ none → Unique (rows ++ r ∷ [])
  unfolding find
  Unique-append [] r u h = (refl, tt)
  Unique-append (x ∷ rows) r u h = (
    ground (arith, u.0, find-append (key x) rows r, eq_iff (key r) (key x), eq_iff (key x) (key r)),
    Unique-append rows r u.1 (ground (arith, h)),
  )

  pub Unique-update_where :
      (p : R → Bool) (f : R → R)
      → ((r : R) → key (f r) ≡ key r)
      → (rows : List R) → Unique rows
      → Unique (update_where p f rows)
  unfolding update_where
  Unique-update_where p f keeps [] u = tt
  Unique-update_where p f keeps (r ∷ rows) u = (
    ground (
      arith,
      keeps r,
      u.0,
      find-update_where p f keeps (key r) rows,
      find-update_where p f keeps (key (f r)) rows,
    ),
    Unique-update_where p f keeps rows u.1,
  )
