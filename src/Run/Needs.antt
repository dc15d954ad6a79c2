-- ===== src/Run/Needs.antt =====
-- crates/camp-core/src/formula/runtime.rs: `unsatisfiable`, the walk along the needs of a bead. The
-- path of the calls that are running is `gray`, handed down: a call that returns has left it. The
-- walk is on fuel; `unsatisfiable` gives it two more than there are beads.
pub mod Verdict
pub mod Returns
use gascamp.Common.{
  ℕ, zero, suc, String, Bool, true, false, Option, none, some, List, [], ◌∷◌, map, find, select,
  contains, is_text, length, ◌==◌,
}
use gascamp.Error.{Result, ok, err, CoreError, needs_cycle}
use gascamp.Schema.{Tables, Dep, is_closed}
use gascamp.Readiness.{get_bead}

-- an entry of `black`
pub record Known : Type 0 where
  pub bead : String
  pub unsatisfiable : Bool

abbrev pub known_key : Known → String
known_key k = k.bead

-- what a call leaves: its answer and `black`, or an error
pub data Walk : Type 0 where
  out_of_fuel : Walk
  stopped : CoreError → Walk
  answered : Bool → List Known → Walk

-- SELECT needs_id FROM deps WHERE bead_id = ?1
abbrev pub needs_of : Tables → String → List String
needs_of t bead = map (λ (d : Dep). d.needs_id) (select (λ d. d.bead_id == bead) t.deps)

-- `if unsatisfiable_walk(...)? { return Ok(true); }`, and the code after it
abbrev pub or_return : Walk → (List Known → Walk) → Walk
or_return (answered true black) rest = answered true black
or_return (answered false black) rest = rest black
or_return (stopped e) rest = stopped e
or_return out_of_fuel rest = out_of_fuel

-- The loop on the needs, with the walk that an open need is given to.
unfoldable pub unsatisfiable_needs :
    Tables → (String → List Known → Walk) → List String → List Known → Walk
unsatisfiable_needs t walk [] black = answered false black
unsatisfiable_needs t walk (need ∷ rest) black = elim (get_bead t need) [
  | none ↦ answered true black
  | some row ↦ elim (is_closed row.status) [
    | true ↦ elim (is_text "pass" row.outcome) [
      | false ↦ answered true black
      | true ↦ unsatisfiable_needs t walk rest black
    ]
    | false ↦ or_return (walk need black) (λ black'. unsatisfiable_needs t walk rest black')
  ]
]

-- `black.insert(bead, result)` on an answer
abbrev pub blacken : String → Walk → Walk
blacken bead (answered result black) =
    answered result (record { bead = bead; unsatisfiable = result } ∷ black)
blacken bead (stopped e) = stopped e
blacken bead out_of_fuel = out_of_fuel

unfoldable pub unsatisfiable_walk : Tables → ℕ → List String → String → List Known → Walk
unsatisfiable_walk t zero gray bead black = out_of_fuel
unsatisfiable_walk t (suc fuel) gray bead black = elim (find known_key bead black) [
  | some known ↦ answered known.unsatisfiable black
  | none ↦ elim (contains gray bead) [
    | true ↦ stopped (needs_cycle bead)
    | false ↦
        blacken bead
          (unsatisfiable_needs t (unsatisfiable_walk t fuel (bead ∷ gray)) (needs_of t bead) black)
  ]
]

abbrev pub answer : Walk → Option (Result Bool)
answer (answered result black) = some (ok result)
answer (stopped e) = some (err e)
answer out_of_fuel = none

unfoldable pub unsatisfiable : Tables → String → Option (Result Bool)
unsatisfiable t bead = answer (unsatisfiable_walk t (suc (suc (length t.beads))) [] bead [])
