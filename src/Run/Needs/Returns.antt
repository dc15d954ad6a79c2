-- ===== src/Run/Needs/Returns.antt =====
-- The walk of `unsatisfiable` returns, with the right answer: it runs out of beads that are not on
-- its path before it runs out of fuel.
use mathlib.Core.Path.{subst}
use gascamp.Common.{
  ◌≡◌, refl, ℕ, zero, suc, ◌<◌, ◌≤◌, String, Bool, true, false, not, some, List, [], ◌∷◌, find,
  select, contains, length, All, All-map, Bool-cases, Option-cases, inl, inr, arith, eq_iff,
  eq_refl, find-key, All-find, ◌==◌, ◌↔◌,
}
use gascamp.Error.{Result, ok, err}
use gascamp.Schema.{Tables, Bead, bead_key, bead_row}
use gascamp.Run.Needs.{
  Known, known_key, Walk, out_of_fuel, stopped, answered, needs_of, unsatisfiable_walk,
  unsatisfiable, answer,
}
use gascamp.Run.Needs.Verdict.{
  Needs, is_open_bead, WaitsFor, one, more, CanPass, Unsatisfiable, Satisfiable, Says, Cyclic,
  AreRight, IsRight, IsRight-blacken, Loop, unsatisfiable_needs-IsRight, not_both,
}

module _ {ℓ} (P : String → Type ℓ) where
  All-contains : (s : String) (xs : List String) → All P xs → contains xs s ≡ true → P s
  All-contains s [] h c = absurd (cc)
  All-contains s (x ∷ xs) h c = elim (Bool-cases (s == x)) [
    | inl e ↦ rw ((eq_iff s x).0 e) h.0
    | inr e ↦ All-contains s xs h.1 (ground arith)
  ]

contains-all :
    (xs ys : List String)
    → ((s : String) → contains xs s ≡ true → contains ys s ≡ true)
    → All (λ s. contains ys s ≡ true) xs
contains-all [] ys h = tt
contains-all (x ∷ xs) ys h =
    (h x (ground (arith, eq_refl x)), contains-all xs ys (λ s c. h s (ground arith)))

unseen_rows : List String → List Bead → ℕ
unseen_rows gray rows = length (select (λ b. not (contains gray b.id)) rows)

unseen_rows-cons :
    (bead : String) (gray : List String) (rows : List Bead)
    → unseen_rows (bead ∷ gray) rows ≤ unseen_rows gray rows
unfolding unseen_rows select
unseen_rows-cons bead gray [] = omega arith
unseen_rows-cons bead gray (b ∷ rows) = ground (arith, unseen_rows-cons bead gray rows)

unseen_rows-le : (gray : List String) (rows : List Bead) → unseen_rows gray rows ≤ length rows
unfolding unseen_rows select
unseen_rows-le gray [] = omega arith
unseen_rows-le gray (b ∷ rows) = ground (arith, unseen_rows-le gray rows)

unseen_rows-found :
    (bead : String) (gray : List String) (rows : List Bead) (r : Bead)
    → find bead_key bead rows ≡ some r
    → contains gray bead ≡ false
    → unseen_rows (bead ∷ gray) rows < unseen_rows gray rows
unfolding unseen_rows select find
unseen_rows-found bead gray [] r row new = absurd (cc)
unseen_rows-found bead gray (b ∷ rows) r row new = elim (Bool-cases (b.id == bead)) [
  | inl e ↦
      (let same : b.id ≡ bead = (eq_iff b.id bead).0 e in
        let new' : contains gray b.id ≡ false = rw same new in
        ground (arith, unseen_rows-cons bead gray rows, new', e))
  | inr e ↦
      (let row' : find bead_key bead rows ≡ some r = rw (← row) (rw e refl) in
        let rest = unseen_rows-found bead gray rows r row' new in ground (arith, rest, e))
]

module _ (t : Tables) where
  unseen : List String → ℕ
  unseen gray = unseen_rows gray t.beads

  abbrev Answers : ℕ → List String → Type 0
  Answers fuel gray =
      (bead : String) (black : List Known)
      → All (λ g. WaitsFor t g bead) gray
      → is_open_bead t (bead_row t bead) ≡ true
      → AreRight t black
      → IsRight t (Says t bead) (unsatisfiable_walk t fuel gray bead black)

  Says-Loop :
      (bead : String) (w : Walk)
      → IsRight t (Loop t bead (needs_of t bead)) w
      → IsRight t (Says t bead) w
  Says-Loop bead out_of_fuel h = h
  Says-Loop bead (stopped e) h = h
  Says-Loop bead (answered true black) h = h
  Says-Loop bead (answered false black) h =
      ((λ need n. All-contains (CanPass t) need (needs_of t bead) h.0 n), h.1)

  longer :
      (bead need : String)
      → Needs t bead need
      → is_open_bead t (bead_row t need) ≡ true
      → (gray : List String) → All (λ g. WaitsFor t g bead) gray
      → All (λ g. WaitsFor t g need) gray
  longer bead need n isopen =
      All-map (λ g. WaitsFor t g bead) (λ g. WaitsFor t g need) (λ g w. more bead w n isopen)

  -- one call, with the calls that it makes
  visit :
      (fuel : ℕ) (gray : List String)
      → (bead : String) (black : List Known)
      → (contains gray bead ≡ false → Answers fuel (bead ∷ gray))
      → All (λ g. WaitsFor t g bead) gray
      → AreRight t black
      → IsRight t (Says t bead) (unsatisfiable_walk t (suc fuel) gray bead black)
  unfolding unsatisfiable_walk
  visit fuel gray bead black answers path right = elim (Option-cases (find known_key bead black)) [
    | inr (k, e) ↦
        rw (IsRight, e)
          (
            subst (λ s. Says t s k.unsatisfiable) (find-key known_key bead black k e)
                (All-find known_key (λ k'. Says t k'.bead k'.unsatisfiable) bead black k right e),
            right,
          )
    | inl new ↦ elim (Bool-cases (contains gray bead)) [
      | inl c ↦
          rw (IsRight, new, c) (bead, refl, All-contains (λ g. WaitsFor t g bead) bead gray path c)
      | inr c ↦
          rw (IsRight, new, c)
            (IsRight-blacken t bead _ (
              Says-Loop bead _ (
                unsatisfiable_needs-IsRight t (unsatisfiable_walk t fuel (bead ∷ gray)) bead
                  (λ need black' n isopen right'.
                    answers c need black' (one n isopen, longer bead need n isopen gray path) isopen
                      right')
                  (needs_of t bead) black
                  (contains-all (needs_of t bead) (needs_of t bead) (λ s n. n)) right)))
    ]
  ]

  walk-Answers : (fuel : ℕ) (gray : List String) → unseen gray < fuel → Answers fuel gray
  unfolding unseen
  walk-Answers zero gray h bead black path isopen right = absurd (omega arith)
  walk-Answers (suc fuel) gray h bead black path isopen right =
      visit fuel gray bead black (λ new. walk-Answers fuel (bead ∷ gray) (fewer new)) path right
    where
      fewer : contains gray bead ≡ false → unseen (bead ∷ gray) < fuel
      fewer new = elim (Option-cases (bead_row t bead)) [
        | inl gone ↦ absurd (ground (arith, gone, isopen))
        | inr (b, row) ↦
            (let less = unseen_rows-found bead gray t.beads b row new in omega (arith, h))
      ]

  -- what `unsatisfiable` returns of a bead
  abbrev pub IsVerdict : String → Result Bool → Type 0
  IsVerdict bead (ok result) = Says t bead result
  IsVerdict bead (err e) = Cyclic t e

  answer-IsVerdict :
      (bead : String) (w : Walk)
      → IsRight t (Says t bead) w
      → (r : Result Bool) × (answer w ≡ some r) × IsVerdict bead r
  answer-IsVerdict bead out_of_fuel h = absurd h
  answer-IsVerdict bead (stopped e) h = (err e, refl, h)
  answer-IsVerdict bead (answered result black) h = (ok result, refl, h.0)

  -- `unsatisfiable` always returns. True: some need of the bead is missing, closed with another
  -- outcome than `pass`, or open and itself unsatisfiable. False: every need has passed, or is open
  -- and each of its own needs can pass. An error: the bead that it names waits for itself.
  pub unsatisfiable-IsVerdict :
      (bead : String) → (r : Result Bool) × (unsatisfiable t bead ≡ some r) × IsVerdict bead r
  unfolding unsatisfiable unseen
  unsatisfiable-IsVerdict bead = answer-IsVerdict bead _ (
      visit (suc (length t.beads)) [] bead []
        (λ new. walk-Answers (suc (length t.beads)) (bead ∷ []) few) tt tt)
    where
      few : unseen (bead ∷ []) < suc (length t.beads)
      few = omega (arith, unseen_rows-le (bead ∷ []) t.beads)

  -- Where no bead waits for itself, `unsatisfiable` answers true exactly of the beads with a need that
  -- is missing, closed with another outcome than `pass`, or open and unsatisfiable in its turn, and
  -- false of all others.
  pub unsatisfiable_iff :
      ((bead : String) → ¬ WaitsFor t bead bead)
      → (bead : String)
      → ((unsatisfiable t bead ≡ some (ok true)) ↔ Unsatisfiable t bead)
        × ((unsatisfiable t bead ≡ some (ok false)) ↔ Satisfiable t bead)
  unsatisfiable_iff acyclic bead = let (r, e, v) = unsatisfiable-IsVerdict bead in go r e v
    where
      go :
          (r : Result Bool)
          → unsatisfiable t bead ≡ some r
          → IsVerdict bead r
          → ((unsatisfiable t bead ≡ some (ok true)) ↔ Unsatisfiable t bead)
            × ((unsatisfiable t bead ≡ some (ok false)) ↔ Satisfiable t bead)
      go (ok true) e v = ((λ _. v, λ _. e), (λ h. absurd (cc), λ s. absurd (not_both t v s)))
      go (ok false) e v = ((λ h. absurd (cc), λ u. absurd (not_both t u v)), (λ _. v, λ _. e))
      go (err x) e v = absurd (acyclic v.0 v.2)
