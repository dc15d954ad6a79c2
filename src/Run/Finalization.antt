-- ===== src/Run/Finalization.antt =====
-- crates/camp-core/src/formula/runtime.rs: `finalization`. Of a RunContext the model holds what it
-- reads: the root, the ids of the formula's steps, and the anchors by step id.
pub mod Anchors
pub mod Table
pub mod Final
pub mod Verdicts
use gascamp.Common.{
  String, Bool, true, false, Option, none, some, List, [], ◌∷◌, ◌++◌, find, is_text, if◌then◌else◌,
}
use gascamp.Error.{Result, ok, err, CoreError, unknown_bead}
use gascamp.Schema.{BeadStatus, open', in_progress, closed, is_closed}
use gascamp.Ledger.{Db}
use gascamp.Readiness.{BeadRow, get_bead}
use gascamp.Run.{close_event_data, field_is}
use gascamp.Run.Needs.{unsatisfiable}

pub record Anchor : Type 0 where
  pub step : String
  pub bead : String

abbrev pub anchor_key : Anchor → String
anchor_key a = a.step

pub record RunContext : Type 0 where
  pub run_id : String
  pub root : String
  pub steps : List String
  pub anchors : List Anchor

pub data RunVerdict : Type 0 where
  not_quiescent : RunVerdict
  finalize : (outcome disposition : String) (soft_failed skipped to_skip : List String) → RunVerdict

-- the variables of the loop
pub record Tally : Type 0 where
  pub hard : Bool
  pub soft_failed : List String
  pub skipped : List String
  pub to_skip : List String

abbrev pub no_tally : Tally
no_tally = record { hard = false; soft_failed = []; skipped = []; to_skip = [] }

-- How a pass of the loop ends: the next pass, a `return`, or nothing at all, where
-- `ctx.anchors[..]` panics or `unsatisfiable` is out of fuel.
pub data Pass : Type 0 where
  no_answer : Pass
  return : Result RunVerdict → Pass
  go_on : Tally → Pass

abbrev pub and_then : Pass → (Tally → Pass) → Pass
and_then no_answer rest = no_answer
and_then (return r) rest = return r
and_then (go_on tally) rest = rest tally

-- an anchor that is open: it can never run, or the run is not done
abbrev pub open_pass : String → String → Tally → Option (Result Bool) → Pass
open_pass step anchor tally none = no_answer
open_pass step anchor tally (some (err e)) = return (err e)
open_pass step anchor tally (some (ok false)) = return (ok not_quiescent)
open_pass step anchor tally (some (ok true)) =
    go_on (record tally {
      skipped = tally.skipped ++ step ∷ [];
      to_skip = tally.to_skip ++ anchor ∷ [];
    })

abbrev pub is_nil : List String → Bool
is_nil [] = true
is_nil (_ ∷ _) = false

-- the outcome and the disposition of the run
abbrev pub words : Tally → String × String
words tally =
    if tally.hard
    then ("fail", "hard_fail")
    else if is_nil tally.skipped
    then if is_nil tally.soft_failed then ("pass", "pass") else ("pass", "soft_fail")
    else ("fail", "soft_fail")

abbrev pub verdict_of : Tally → RunVerdict
verdict_of tally =
    finalize (words tally).0 (words tally).1 tally.soft_failed tally.skipped tally.to_skip

abbrev pub conclude : Pass → Option (Result RunVerdict)
conclude no_answer = none
conclude (return r) = some r
conclude (go_on tally) = some (ok (verdict_of tally))

-- the `match` on the anchor's status and outcome
module _ {V : Type 0} (fields : V → String → Option String) (db : Db V) where
  abbrev pub has_soft_failed : String → Bool
  has_soft_failed anchor =
      field_is fields "final_disposition" "soft_fail" (close_event_data db anchor)

  abbrev pub closed_pass : String → String → Tally → Option String → Tally
  closed_pass step anchor tally outcome =
      if is_text "pass" outcome
      then tally
      else if is_text "skipped" outcome
      then record tally { skipped = tally.skipped ++ step ∷ [] }
      else if has_soft_failed anchor
      then record tally { soft_failed = tally.soft_failed ++ step ∷ [] }
      else record tally { hard = true }

  abbrev pub anchor_pass : String → String → Tally → BeadRow → Pass
  anchor_pass step anchor tally row = elim row.status [
    | closed ↦ go_on (closed_pass step anchor tally row.outcome)
    | in_progress ↦ return (ok not_quiescent)
    | open' ↦ open_pass step anchor tally (unsatisfiable db.tables anchor)
  ]

  abbrev pub step_pass : RunContext → String → Tally → Pass
  step_pass ctx step tally = elim (find anchor_key step ctx.anchors) [
    | none ↦ no_answer
    | some a ↦ elim (get_bead db.tables a.bead) [
      | none ↦ return (err (unknown_bead a.bead))
      | some row ↦ anchor_pass step a.bead tally row
    ]
  ]

  unfoldable pub each_step : RunContext → List String → Tally → Pass
  each_step ctx [] tally = go_on tally
  each_step ctx (step ∷ rest) tally =
      and_then (step_pass ctx step tally) (λ next. each_step ctx rest next)

  unfoldable pub finalization : RunContext → Option (Result RunVerdict)
  finalization ctx = elim (get_bead db.tables ctx.root) [
    | none ↦ some (err (unknown_bead ctx.root))
    | some root ↦
        if is_closed root.status
        then some (ok not_quiescent)
        else conclude (each_step ctx ctx.steps no_tally)
  ]
