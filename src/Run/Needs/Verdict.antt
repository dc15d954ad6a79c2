-- ===== src/Run/Needs/Verdict.antt =====
-- crates/camp-core/src/formula/runtime.rs: what `unsatisfiable` decides, and the loop on the needs of
-- one bead.
use gascamp.Common.{
  ◌≡◌, refl, String, Bool, true, false, not, Option, none, some, List, [], ◌∷◌, contains, is_text,
  All, Bool-cases, Option-cases, inl, inr, arith,
}
use gascamp.Error.{CoreError, needs_cycle}
use gascamp.Schema.{Tables, Bead, bead_row, is_closed}
use gascamp.Run.Needs.{
  Known, Walk, out_of_fuel, stopped, answered, needs_of, unsatisfiable_needs, blacken, or_return,
}

module _ (t : Tables) where
  -- a dependency row of `bead` on `need`
  abbrev pub Needs : String → String → Type 0
  Needs bead need = contains (needs_of t bead) need ≡ true

  abbrev pub is_open_bead : Option Bead → Bool
  is_open_bead none = false
  is_open_bead (some b) = not (is_closed b.status)

  -- A need of `bead` never passes in these tables: it is missing, closed with another outcome, or
  -- open with a need of its own that never passes.
  pub data Unsatisfiable : String → Type 0 where
    missing :
        {bead : String} (need : String)
        → Needs bead need
        → bead_row t need ≡ none
        → Unsatisfiable bead
    failed :
        {bead : String} (need : String) (b : Bead)
        → Needs bead need
        → bead_row t need ≡ some b
        → is_closed b.status ≡ true
        → is_text "pass" b.outcome ≡ false
        → Unsatisfiable bead
    waits :
        {bead : String} (need : String) (b : Bead)
        → Needs bead need
        → bead_row t need ≡ some b
        → is_closed b.status ≡ false
        → Unsatisfiable need
        → Unsatisfiable bead

  -- The bead has passed, or is open and each of its needs can pass.
  pub data CanPass : String → Type 0 where
    passed :
        {bead : String} (b : Bead)
        → bead_row t bead ≡ some b
        → is_closed b.status ≡ true
        → is_text "pass" b.outcome ≡ true
        → CanPass bead
    in_time :
        {bead : String} (b : Bead)
        → bead_row t bead ≡ some b
        → is_closed b.status ≡ false
        → ((need : String) → Needs bead need → CanPass need)
        → CanPass bead

  abbrev pub Satisfiable : String → Type 0
  Satisfiable bead = (need : String) → Needs bead need → CanPass need

  -- along open needs
  pub data WaitsFor : String → String → Type 0 where
    one :
        {bead need : String}
        → Needs bead need
        → is_open_bead (bead_row t need) ≡ true
        → WaitsFor bead need
    more :
        {bead need : String} (mid : String)
        → WaitsFor bead mid
        → Needs mid need
        → is_open_bead (bead_row t need) ≡ true
        → WaitsFor bead need

  -- what an answer says of a bead
  abbrev pub Says : String → Bool → Type 0
  Says bead true = Unsatisfiable bead
  Says bead false = Satisfiable bead

  -- the error names a bead that waits for itself
  abbrev pub Cyclic : CoreError → Type 0
  Cyclic e = (bead : String) × (e ≡ needs_cycle bead) × WaitsFor bead bead

  abbrev pub AreRight : List Known → Type 0
  AreRight = All (λ k. Says k.bead k.unsatisfiable)

  abbrev pub IsRight : (Bool → Type 0) → Walk → Type 0
  IsRight P out_of_fuel = ⊥
  IsRight P (stopped e) = Cyclic e
  IsRight P (answered result black) = P result × AreRight black

  pub IsRight-blacken :
      (bead : String) (w : Walk) → IsRight (Says bead) w → IsRight (Says bead) (blacken bead w)
  IsRight-blacken bead out_of_fuel h = h
  IsRight-blacken bead (stopped e) h = h
  IsRight-blacken bead (answered r black) h = (h.0, (h.0, h.1))

  -- what the loop on the needs leaves
  abbrev pub Loop : String → List String → Bool → Type 0
  Loop bead needs true = Unsatisfiable bead
  Loop bead needs false = All CanPass needs

  -- one more need that can pass
  IsRight-cons :
      (bead need : String) (rest : List String) (w : Walk)
      → CanPass need
      → IsRight (Loop bead rest) w
      → IsRight (Loop bead (need ∷ rest)) w
  IsRight-cons bead need rest out_of_fuel p h = h
  IsRight-cons bead need rest (stopped e) p h = h
  IsRight-cons bead need rest (answered true black) p h = h
  IsRight-cons bead need rest (answered false black) p h = ((p, h.0), h.1)

  IsRight-or_return :
      (bead need : String) (rest : List String) {b : Bead}
      → Needs bead need
      → bead_row t need ≡ some b
      → is_closed b.status ≡ false
      → (w : Walk) (later : List Known → Walk) → IsRight (Says need) w
      → ((black : List Known) → AreRight black → IsRight (Loop bead rest) (later black))
      → IsRight (Loop bead (need ∷ rest)) (or_return w later)
  IsRight-or_return bead need rest {b} n row going out_of_fuel later h k = h
  IsRight-or_return bead need rest {b} n row going (stopped e) later h k = h
  IsRight-or_return bead need rest {b} n row going (answered true black) later h k =
      (waits need b n row going h.0, h.1)
  IsRight-or_return bead need rest {b} n row going (answered false black) later h k =
      IsRight-cons bead need rest (later black) (in_time b row going h.0) (k black h.1)

  module _ (walk : String → List Known → Walk) (bead : String)
      (walks : (need : String) (black : List Known)
        → Needs bead need
        → is_open_bead (bead_row t need) ≡ true
        → AreRight black
        → IsRight (Says need) (walk need black)) where
    pub unsatisfiable_needs-IsRight :
        (needs : List String) (black : List Known)
        → All (Needs bead) needs
        → AreRight black
        → IsRight (Loop bead needs) (unsatisfiable_needs t walk needs black)
    unfolding unsatisfiable_needs
    unsatisfiable_needs-IsRight [] black all right = (tt, right)
    unsatisfiable_needs-IsRight (need ∷ rest) black all right =
        elim (Option-cases (bead_row t need)) [
          | inl gone ↦ rw (IsRight, gone) (missing need all.0 gone, right)
          | inr (b, row) ↦ elim (Bool-cases (is_closed b.status)) [
            | inl done ↦ elim (Bool-cases (is_text "pass" b.outcome)) [
              | inl pass ↦
                  rw (IsRight, row, done, pass)
                    (IsRight-cons bead need rest _ (passed b row done pass)
                      (unsatisfiable_needs-IsRight rest black all.1 right))
              | inr fail ↦ rw (IsRight, row, done, fail) (failed need b all.0 row done fail, right)
            ]
            | inr going ↦
                rw (IsRight, row, going)
                  (IsRight-or_return bead need rest all.0 row going (walk need black) _
                    (walks need black all.0 (rw (row, going) refl) right)
                    (λ black' right'. unsatisfiable_needs-IsRight rest black' all.1 right'))
          ]
        ]

  passes_or_not : {bead : String} → CanPass bead → (bead_row t bead ≡ none) → ⊥
  passes_or_not (passed b row done pass) gone = absurd (cc)
  passes_or_not (in_time b row going all) gone = absurd (cc)

  -- The two answers exclude each other.
  pub not_both : {bead : String} → Unsatisfiable bead → Satisfiable bead → ⊥
  not_both (missing need n gone) all = passes_or_not (all need n) gone
  not_both (failed need b n row done fail) all = go (all need n)
    where
      go : CanPass need → ⊥
      go (passed c row' done' pass) = absurd (ground (arith, row, row'))
      go (in_time c row' going all') = absurd (ground (arith, row, row'))
  not_both (waits need b n row going u) all = go (all need n) (not_both u)
    where
      go : CanPass need → (Satisfiable need → ⊥) → ⊥
      go (passed c row' done pass) never = absurd (ground (arith, row, row'))
      go (in_time c row' going' all') never = never all'
