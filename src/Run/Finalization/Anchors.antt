-- ===== src/Run/Finalization/Anchors.antt =====
-- crates/camp-core/src/formula/runtime.rs: the anchors of a run's steps, and the lists that `finalization` puts them on.
use gascamp.Common.{
  ◌≡◌, refl, String, Bool, true, false, not, ◌&&◌, ◌||◌, Option, none, some, List, ◌++◌, map, find,
  any, select, is_text, differs, All, arith, inl, inr, ◌⊎◌,
}
use gascamp.Error.{ok}
use gascamp.Schema.{Bead, is_closed, is_open, bead_row}
use gascamp.Ledger.{Db}
use gascamp.Run.Needs.{unsatisfiable}
use gascamp.Run.Finalization.{RunContext, Anchor, anchor_key, Tally, has_soft_failed}

module _ {V : Type 0} (fields : V → String → Option String) (db : Db V) (ctx : RunContext) where
  -- the anchor of a step and its row
  abbrev pub anchor_of : String → String
  anchor_of step = elim (find anchor_key step ctx.anchors) [ none ↦ "" | some a ↦ a.bead ]

  abbrev pub row_of : String → Option Bead
  row_of step = bead_row db.tables (anchor_of step)

  abbrev pub closed_as : String → Option Bead → Bool
  closed_as outcome none = false
  closed_as outcome (some b) = is_closed b.status && is_text outcome b.outcome

  abbrev pub is_waiting : Option Bead → Bool
  is_waiting none = false
  is_waiting (some b) = is_open b.status

  abbrev pub has_failed : Option Bead → Bool
  has_failed none = false
  has_failed (some b) =
      is_closed b.status && not (is_text "pass" b.outcome) && not (is_text "skipped" b.outcome)

  abbrev pub passes : String → Bool
  passes step = closed_as "pass" (row_of step)

  abbrev pub waits : String → Bool
  waits step = is_waiting (row_of step)

  abbrev pub skips : String → Bool
  skips step = closed_as "skipped" (row_of step) || waits step

  abbrev pub fails_soft : String → Bool
  fails_soft step = has_failed (row_of step) && has_soft_failed fields db (anchor_of step)

  abbrev pub fails_hard : String → Bool
  fails_hard step = has_failed (row_of step) && not (has_soft_failed fields db (anchor_of step))

  -- the anchor is closed, or open and never to run
  abbrev pub IsSettled : String → Type 0
  IsSettled step =
      ((b : Bead) × (row_of step ≡ some b) × (is_closed b.status ≡ true))
      ⊎ ((b : Bead) × (row_of step ≡ some b)
          × (is_open b.status ≡ true)
          × (unsatisfiable db.tables (anchor_of step) ≡ some (ok true)))

  -- Passes that go on have met settled anchors, and have put each on the lists it belongs to.
  pub record IsTallied (steps : List String) (tally next : Tally) : Type 0 where
    pub settled : All IsSettled steps
    pub hard : next.hard ≡ (tally.hard || any fails_hard steps)
    pub soft_failed : next.soft_failed ≡ tally.soft_failed ++ select fails_soft steps
    pub skipped : next.skipped ≡ tally.skipped ++ select skips steps
    pub to_skip : next.to_skip ≡ tally.to_skip ++ map anchor_of (select waits steps)

  module _ (step : String) (a : Anchor) (b : Bead)
      (found : find anchor_key step ctx.anchors ≡ some a)
      (row : bead_row db.tables a.bead ≡ some b) where
    pub anchored : anchor_of step ≡ a.bead
    anchored = rw (anchor_of, found) refl

    pub rowed : row_of step ≡ some b
    rowed = rw anchored row

  pub exclusive : (o : Option String) → is_text "pass" o ≡ true → is_text "skipped" o ≡ false
  exclusive none h = refl
  exclusive (some w) h = differs w "pass" "skipped" refl h

  -- A settled anchor has passed, or is on one of the lists.
  pub passes-IsSettled :
      (step : String)
      → IsSettled step
      → passes step ≡ not (fails_hard step || skips step || fails_soft step)
  passes-IsSettled step (inl (b, row, done)) = ground (arith, row, done, exclusive b.outcome)
  passes-IsSettled step (inr (b, row, going, u)) = ground (arith, row, going)
