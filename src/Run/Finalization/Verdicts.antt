-- ===== src/Run/Finalization/Verdicts.antt =====
-- crates/camp-core/src/formula/runtime.rs: what each answer of `finalization` says of the run.
use mathlib.Core.Path.{subst}
use gascamp.Common.{
  ◌≡◌, refl, sym, ap, ◌∙◌, String, Bool, true, false, Option, none, some, List, [], ◌∷◌, find,
  contains, is_some, All, arith, eq_refl, Bool-cases, Option-cases, ◌⊎◌, inl, inr,
}
use gascamp.Error.{Result, CoreError, ok, err, unknown_bead}
use gascamp.Schema.{Bead, BeadStatus, open', in_progress, closed, is_closed, bead_row}
use gascamp.Ledger.{Db}
use gascamp.Readiness.{row_to_bead}
use gascamp.Run.Needs.Verdict.{Satisfiable, Cyclic}
use gascamp.Run.Needs.Returns.{IsVerdict, unsatisfiable-IsVerdict}
use gascamp.Run.Finalization.{
  RunContext, Anchor, anchor_key, Tally, no_tally, Pass, no_answer, return, go_on, step_pass,
  each_step, and_then, anchor_pass, open_pass, RunVerdict, not_quiescent, finalize, conclude,
  verdict_of, finalization,
}
use gascamp.Run.Finalization.Anchors.{anchor_of, row_of, anchored, rowed}
use gascamp.Run.Finalization.Table.{each_step-IsTallied}
use gascamp.Run.Finalization.Final.{IsFinal, verdict_of-IsFinal}

module _ {V : Type 0} (fields : V → String → Option String) (db : Db V) (ctx : RunContext) where
  -- the anchor is in progress, or open and each of its needs can still pass
  abbrev pub IsPending : String → Type 0
  IsPending step =
      (b : Bead) × (row_of fields db ctx step ≡ some b)
      × ((b.status ≡ in_progress)
          ⊎ ((b.status ≡ open') × Satisfiable db.tables (anchor_of fields db ctx step)))

  -- the root is there, and is not closed
  abbrev pub RootIsOpen : Type 0
  RootIsOpen = (b : Bead) × (bead_row db.tables ctx.root ≡ some b) × (is_closed b.status ≡ false)

  -- the error names the anchor of one of the steps, which has no row
  abbrev pub Missing : List String → CoreError → Type 0
  Missing steps e =
      (step : String) × (contains steps step ≡ true)
      × (e ≡ unknown_bead (anchor_of fields db ctx step))
      × (row_of fields db ctx step ≡ none)

  -- what an answer says
  abbrev pub IsExplained : Result RunVerdict → Type 0
  IsExplained (ok not_quiescent) =
      ((b : Bead) × (bead_row db.tables ctx.root ≡ some b) × (is_closed b.status ≡ true))
      ⊎ (RootIsOpen × ((step : String) × (contains ctx.steps step ≡ true) × IsPending step))
  IsExplained (ok (finalize outcome disposition soft_failed skipped to_skip)) =
      RootIsOpen × IsFinal fields db ctx outcome disposition soft_failed skipped to_skip
  IsExplained (err e) =
      ((e ≡ unknown_bead ctx.root) × (bead_row db.tables ctx.root ≡ none))
      ⊎ (RootIsOpen × (Missing ctx.steps e ⊎ Cyclic db.tables e))

  -- a pass that does not go on
  abbrev Stops : List String → Pass → Type 0
  Stops steps no_answer = ⊥
  Stops steps (go_on _) = Unit
  Stops steps (return (ok not_quiescent)) =
      (step : String) × (contains steps step ≡ true) × IsPending step
  Stops steps (return (ok (finalize _ _ _ _ _))) = ⊥
  Stops steps (return (err e)) = Missing steps e ⊎ Cyclic db.tables e

  abbrev HasAnchor : String → Type 0
  HasAnchor step = is_some (find anchor_key step ctx.anchors) ≡ true

  pending :
      (step : String)
      → IsPending step
      → (x : String) × (contains (step ∷ []) x ≡ true) × IsPending x
  pending step h = (step, ground (arith, eq_refl step), h)

  module _ (step : String) (a : Anchor) (b : Bead)
      (found : find anchor_key step ctx.anchors ≡ some a) (row : bead_row db.tables a.bead ≡ some b)
      (tally : Tally) where
    open_pass-Stops :
        b.status ≡ open'
        → (r : Result Bool) → IsVerdict db.tables a.bead r
        → Stops (step ∷ []) (open_pass step a.bead tally (some r))
    open_pass-Stops c (ok true) v = tt
    open_pass-Stops c (ok false) v = pending step (
      b,
      rowed fields db ctx step a b found row,
      inr (c, subst (Satisfiable db.tables) (sym (anchored fields db ctx step a b found row)) v),
    )
    open_pass-Stops c (err e) v = inr v

    anchor_pass-Stops :
        (s : BeadStatus)
        → b.status ≡ s
        → Stops (step ∷ []) (anchor_pass fields db step a.bead tally (row_to_bead b))
    anchor_pass-Stops closed c = rw (Stops, c) tt
    anchor_pass-Stops in_progress c =
        rw (Stops, c) (pending step (b, rowed fields db ctx step a b found row, inl c))
    anchor_pass-Stops open' c =
        let (r, e, v) = unsatisfiable-IsVerdict db.tables a.bead in
        rw (Stops, c, e) (open_pass-Stops c r v)

  missing :
      (step : String) (a : Anchor)
      → find anchor_key step ctx.anchors ≡ some a
      → bead_row db.tables a.bead ≡ none
      → Missing (step ∷ []) (unknown_bead a.bead) ⊎ Cyclic db.tables (unknown_bead a.bead)
  missing step a found gone =
      let at : anchor_of fields db ctx step ≡ a.bead = rw (anchor_of, found) refl in
      inl (step, ground (arith, eq_refl step), ap unknown_bead (sym at), rw at gone)

  step_pass-Stops :
      (step : String) (tally : Tally)
      → HasAnchor step
      → Stops (step ∷ []) (step_pass fields db ctx step tally)
  step_pass-Stops step tally h = elim (Option-cases (find anchor_key step ctx.anchors)) [
    | inl none' ↦ absurd (ground (arith, none', h))
    | inr (a, found) ↦ elim (Option-cases (bead_row db.tables a.bead)) [
      | inl gone ↦ rw (Stops, found, gone) (missing step a found gone)
      | inr (b, row) ↦
          rw (Stops, found, row) (anchor_pass-Stops step a b found row tally b.status refl)
    ]
  ]

  further :
      (step : String) (rest : List String)
      → ((x : String) × (contains rest x ≡ true) × IsPending x)
      → (x : String) × (contains (step ∷ rest) x ≡ true) × IsPending x
  further step rest (x, c, h) = (x, ground arith, h)

  further_error :
      (step : String) (rest : List String) (e : CoreError)
      → Missing rest e ⊎ Cyclic db.tables e
      → Missing (step ∷ rest) e ⊎ Cyclic db.tables e
  further_error step rest e (inl (x, c, m, gone)) = inl (x, ground arith, m, gone)
  further_error step rest e (inr c) = inr c

  wider_error :
      (step : String) (rest : List String) (e : CoreError)
      → Missing (step ∷ []) e ⊎ Cyclic db.tables e
      → Missing (step ∷ rest) e ⊎ Cyclic db.tables e
  wider_error step rest e (inl (x, c, m, gone)) = inl (x, ground arith, m, gone)
  wider_error step rest e (inr c) = inr c

  later : (step : String) (rest : List String) (p : Pass) → Stops rest p → Stops (step ∷ rest) p
  later step rest no_answer h = h
  later step rest (go_on _) h = tt
  later step rest (return (ok not_quiescent)) h = further step rest h
  later step rest (return (ok (finalize _ _ _ _ _))) h = h
  later step rest (return (err e)) h = further_error step rest e h

  each_step-Stops :
      (steps : List String) (tally : Tally)
      → All HasAnchor steps
      → Stops steps (each_step fields db ctx steps tally)
  unfolding each_step
  each_step-Stops [] tally h = tt
  each_step-Stops (step ∷ rest) tally h =
      go (step_pass fields db ctx step tally) (step_pass-Stops step tally h.0)
        (λ t. each_step-Stops rest t h.1)
    where
      go :
          (p : Pass)
          → Stops (step ∷ []) p
          → ((t : Tally) → Stops rest (each_step fields db ctx rest t))
          → Stops (step ∷ rest) (and_then p (λ next. each_step fields db ctx rest next))
      go no_answer s ih = s
      go (return (ok not_quiescent)) (x, c, h') ih = (x, ground arith, h')
      go (return (ok (finalize _ _ _ _ _))) s ih = s
      go (return (err e)) s ih = wider_error step rest e s
      go (go_on t) s ih = later step rest _ (ih t)

module _ {V : Type 0} (fields : V → String → Option String) (db : Db V) (ctx : RunContext) where
  -- Where every step has its anchor, as in a context that `load_run` returns, `finalization` always
  -- returns. Not quiescent: the root is closed already, or it is not and some step's anchor is in
  -- progress, or is open and each of its needs can still pass. Finalize: the root is not closed; each
  -- anchor is closed, or open and unsatisfiable and listed to be closed as skipped; the lists are those
  -- of the steps that failed softly, that are skipped, and that wait; the outcome is `pass` unless a step
  -- failed hard or is skipped; the disposition is `hard_fail` exactly where one failed hard, and `pass`
  -- exactly where every anchor passed. An error: the root has no row; or the root is not closed, and the
  -- anchor that the error names has no row or some bead waits for itself.
  pub finalization-IsExplained :
      All (HasAnchor fields db ctx) ctx.steps
      → (r : Result RunVerdict) × (finalization fields db ctx ≡ some r)
        × IsExplained fields db ctx r
  unfolding finalization
  finalization-IsExplained anchors = elim (Option-cases (bead_row db.tables ctx.root)) [
    | inl gone ↦ (err (unknown_bead ctx.root), rw (finalization, gone) refl, inl (refl, gone))
    | inr (b, row) ↦ elim (Bool-cases (is_closed b.status)) [
      | inl done ↦ (ok not_quiescent, rw (finalization, row, done) refl, inl (b, row, done))
      | inr going ↦
          (let loop = each_step fields db ctx ctx.steps no_tally in
            let (r, e, ex) =
              go (b, row, going) loop refl
                (each_step-Stops fields db ctx ctx.steps no_tally anchors) in
            let run : finalization fields db ctx ≡ conclude loop =
              rw (finalization, row, going) refl in
            (r, run ∙ e, ex))
    ]
  ]
    where
      go :
          RootIsOpen fields db ctx
          → (p : Pass) → each_step fields db ctx ctx.steps no_tally ≡ p
          → Stops fields db ctx ctx.steps p
          → (r : Result RunVerdict) × (conclude p ≡ some r) × IsExplained fields db ctx r
      go root no_answer e s = absurd s
      go root (return (ok not_quiescent)) e s = (ok not_quiescent, refl, inr (root, s))
      go root (return (ok (finalize _ _ _ _ _))) e s = absurd s
      go root (return (err x)) e s = (err x, refl, inr (root, s))
      go root (go_on tally) e s = (
        ok (verdict_of tally),
        refl,
        (
          root,
          verdict_of-IsFinal fields db ctx tally
              (each_step-IsTallied fields db ctx ctx.steps no_tally tally e),
        ),
      )
