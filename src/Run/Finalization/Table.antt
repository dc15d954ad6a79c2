-- ===== src/Run/Finalization/Table.antt =====
-- crates/camp-core/src/formula/runtime.rs: what the loop of `finalization` gathers, step by step.
use mathlib.Core.List.{append-nil, append_assoc}
use mathlib.Core.Path.{subst}
use gascamp.Common.{
  ◌≡◌, refl, sym, String, Bool, true, false, Option, none, some, List, [], ◌∷◌, map, find, any,
  select, arith, Option-cases, inl, inr,
}
use gascamp.Error.{Result, ok, err}
use gascamp.Schema.{Bead, BeadStatus, open', in_progress, closed, bead_row}
use gascamp.Ledger.{Db}
use gascamp.Readiness.{row_to_bead}
use gascamp.Run.Needs.{unsatisfiable}
use gascamp.Run.Finalization.{
  RunContext, Anchor, anchor_key, Tally, Pass, no_answer, return, go_on, step_pass, each_step,
  and_then, anchor_pass, open_pass, closed_pass,
}
use gascamp.Run.Finalization.Anchors.{
  anchor_of, waits, skips, fails_soft, IsTallied, anchored, rowed, exclusive,
}

module _ {V : Type 0} (fields : V → String → Option String) (db : Db V) (ctx : RunContext) where
  module _ (step : String) (a : Anchor) (b : Bead)
      (found : find anchor_key step ctx.anchors ≡ some a) (row : bead_row db.tables a.bead ≡ some b)
      (tally next : Tally) where
    closed_pass-IsTallied :
        b.status ≡ closed
        → closed_pass fields db step a.bead tally b.outcome ≡ next
        → (IsTallied fields db ctx) (step ∷ []) tally next
    unfolding any select
    closed_pass-IsTallied c h = record {
      settled = (inl (b, ((rowed fields db ctx) step a b found row), rw c refl), tt);
      hard = ground (
        arith,
        ((anchored fields db ctx) step a b found row),
        ((rowed fields db ctx) step a b found row),
        row,
        c,
        h,
      );
      soft_failed = ground (
        arith,
        ((anchored fields db ctx) step a b found row),
        ((rowed fields db ctx) step a b found row),
        row,
        c,
        h,
        (exclusive fields db ctx) b.outcome,
        append-nil tally.soft_failed,
      );
      skipped = ground (
        arith,
        ((anchored fields db ctx) step a b found row),
        ((rowed fields db ctx) step a b found row),
        row,
        c,
        h,
        (exclusive fields db ctx) b.outcome,
        append-nil tally.skipped,
      );
      to_skip = ground (
        arith,
        ((anchored fields db ctx) step a b found row),
        ((rowed fields db ctx) step a b found row),
        row,
        c,
        h,
        (exclusive fields db ctx) b.outcome,
        append-nil tally.to_skip,
      );
    }

    open_pass-IsTallied :
        b.status ≡ open'
        → (o : Option (Result Bool)) → unsatisfiable db.tables a.bead ≡ o
        → open_pass step a.bead tally o ≡ go_on next
        → (IsTallied fields db ctx) (step ∷ []) tally next
    unfolding any select
    open_pass-IsTallied c none u h = absurd (cc)
    open_pass-IsTallied c (some (err e)) u h = absurd (cc)
    open_pass-IsTallied c (some (ok false)) u h = absurd (cc)
    open_pass-IsTallied c (some (ok true)) u h = record {
      settled = (
        inr (
          b,
          ((rowed fields db ctx) step a b found row),
          rw c refl,
          rw ((anchored fields db ctx) step a b found row) u,
        ),
        tt,
      );
      hard = ground (
        arith,
        ((anchored fields db ctx) step a b found row),
        ((rowed fields db ctx) step a b found row),
        c,
        h,
      );
      soft_failed = ground (
        arith,
        ((anchored fields db ctx) step a b found row),
        ((rowed fields db ctx) step a b found row),
        c,
        h,
        append-nil tally.soft_failed,
      );
      skipped = ground (
        arith,
        ((anchored fields db ctx) step a b found row),
        ((rowed fields db ctx) step a b found row),
        c,
        h,
      );
      to_skip = ground (
        arith,
        ((anchored fields db ctx) step a b found row),
        ((rowed fields db ctx) step a b found row),
        c,
        h,
      );
    }

    anchor_pass-IsTallied :
        (s : BeadStatus)
        → b.status ≡ s
        → anchor_pass fields db step a.bead tally (row_to_bead b) ≡ go_on next
        → (IsTallied fields db ctx) (step ∷ []) tally next
    anchor_pass-IsTallied closed c h = closed_pass-IsTallied c (ground (arith, c, h))
    anchor_pass-IsTallied in_progress c h = absurd (ground (arith, c, h))
    anchor_pass-IsTallied open' c h = open_pass-IsTallied c _ refl (ground (arith, c, h))

  step_pass-IsTallied :
      (step : String) (tally next : Tally)
      → step_pass fields db ctx step tally ≡ go_on next
      → (IsTallied fields db ctx) (step ∷ []) tally next
  step_pass-IsTallied step tally next h = elim (Option-cases (find anchor_key step ctx.anchors)) [
    | inl none' ↦ absurd (ground (arith, none', h))
    | inr (a, found) ↦ elim (Option-cases (bead_row db.tables a.bead)) [
      | inl gone ↦ absurd (ground (arith, found, gone, h))
      | inr (b, row) ↦
          anchor_pass-IsTallied step a b found row tally next b.status refl
            (ground (arith, found, row, h))
    ]
  ]

  IsTallied-cons :
      (step : String) (rest : List String) (tally mid next : Tally)
      → (IsTallied fields db ctx) (step ∷ []) tally mid
      → (IsTallied fields db ctx) rest mid next
      → (IsTallied fields db ctx) (step ∷ rest) tally next
  unfolding any select
  IsTallied-cons step rest tally mid next f g = record {
    settled = (f.settled.0, g.settled);
    hard = ground (arith, f.hard, g.hard);
    soft_failed = ground (
      arith,
      f.soft_failed,
      g.soft_failed,
      append_assoc tally.soft_failed (step ∷ []) (select (fails_soft fields db ctx) rest),
      append-nil tally.soft_failed,
    );
    skipped = ground (
      arith,
      f.skipped,
      g.skipped,
      append_assoc tally.skipped (step ∷ []) (select (skips fields db ctx) rest),
      append-nil tally.skipped,
    );
    to_skip = ground (
      arith,
      f.to_skip,
      g.to_skip,
      append_assoc tally.to_skip ((anchor_of fields db ctx) step ∷ [])
          (map (anchor_of fields db ctx) (select (waits fields db ctx) rest)),
      append-nil tally.to_skip,
    );
  }

  -- The loop, when it comes to its end:
  pub each_step-IsTallied :
      (steps : List String) (tally next : Tally)
      → each_step fields db ctx steps tally ≡ go_on next
      → (IsTallied fields db ctx) steps tally next
  unfolding each_step any select
  each_step-IsTallied [] tally next h =
      let same : tally ≡ next = ground arith in
      subst (λ n. (IsTallied fields db ctx) [] tally n) same
        (record {
          settled = tt;
          hard = ground arith;
          soft_failed = sym (append-nil tally.soft_failed);
          skipped = sym (append-nil tally.skipped);
          to_skip = sym (append-nil tally.to_skip);
        })
  each_step-IsTallied (step ∷ rest) tally next h =
      go (step_pass fields db ctx step tally) refl (each_step-IsTallied rest) h
    where
      go :
          (p : Pass)
          → step_pass fields db ctx step tally ≡ p
          → ((tally next : Tally)
              → each_step fields db ctx rest tally ≡ go_on next
              → (IsTallied fields db ctx) rest tally next)
          → and_then p (λ next. each_step fields db ctx rest next) ≡ go_on next
          → (IsTallied fields db ctx) (step ∷ rest) tally next
      go no_answer e ih h' = absurd (cc)
      go (return r) e ih h' = absurd (cc)
      go (go_on mid) e ih h' =
          IsTallied-cons step rest tally mid next (step_pass-IsTallied step tally mid e)
            (ih mid next h')
