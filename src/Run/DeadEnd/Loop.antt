-- ===== src/Run/DeadEnd/Loop.antt =====
-- crates/camp-core/src/formula/runtime.rs: the loop of `dead_end_inputs`.
use gascamp.Common.{
  ◌≡◌, refl, true, All, All-append, Bool-cases, inl, inr, ap, ◌∙◌, String, Bool, false, not, Option,
  none, some, List, [], ◌∷◌, ◌++◌, ◌&&◌, ◌||◌, map, any, select, contains, is_some, is_text, arith,
  ◌==◌, eq_iff, eq_refl,
}
use gascamp.Event.{EventType}
use gascamp.Schema.{Tables, Bead, is_closed}
use gascamp.Readiness.{BeadRow, get_bead}
use gascamp.Run.DeadEnd.{
  DeadEndData, close_data, finalized_data, Input, StepBead, insert_by_id, order_by_id, run_bead_ids,
  Batch, campd_input, noted, skip_row, skip_steps,
}

-- the input closes the bead as skipped
abbrev skips_as : String → DeadEndData → Bool
skips_as reason (close_data outcome why) = outcome == "skipped" && why == reason
skips_as reason (finalized_data f) = false

abbrev is_close : EventType → Bool
is_close EventType.bead_closed = true
is_close _ = false

-- whatever bead it is of
abbrev pub is_skip : String → Input → Bool
is_skip reason i = is_close i.kind && i.actor == "campd" && skips_as reason i.payload

abbrev pub skips : String → String → Input → Bool
skips reason id i = is_text id i.bead && is_skip reason i

-- the bead of a step that is not closed
abbrev pub open_row : Option BeadRow → Bool
open_row none = false
open_row (some row) = not (is_closed row.status)

abbrev pub going : Tables → StepBead → Bool
going t p = is_some p.1 && open_row (get_bead t p.0)

module _ {ℓ} {A : Type ℓ} (P : A → Bool) where
  any-append : (xs ys : List A) → any P (xs ++ ys) ≡ (any P xs || any P ys)
  unfolding any
  any-append [] ys = refl
  any-append (x ∷ xs) ys = ground (arith, any-append xs ys)

any-insert_by_id :
    (P : StepBead → Bool) (b : StepBead) (xs : List StepBead)
    → any P (insert_by_id b xs) ≡ (P b || any P xs)
unfolding any insert_by_id
any-insert_by_id P b [] = refl
any-insert_by_id P b (x ∷ xs) = ground (arith, any-insert_by_id P b xs)

any-order_by_id : (P : StepBead → Bool) (xs : List StepBead) → any P (order_by_id xs) ≡ any P xs
unfolding any order_by_id
any-order_by_id P [] = refl
any-order_by_id P (b ∷ xs) =
    any-insert_by_id P b (order_by_id xs) ∙ ap (λ r. P b || r) (any-order_by_id P xs)

contains-append :
    (xs : List String) (x s : String) → contains (xs ++ x ∷ []) s ≡ (contains xs s || s == x)
contains-append [] x s = ground arith
contains-append (y ∷ xs) x s = ground (arith, contains-append xs x s)

contains-noted :
    (step s : String) (xs : List String) → contains (noted step xs) s ≡ (contains xs s || s == step)
contains-noted step s xs = ground (arith, contains-append xs step s, eq_iff s step)

row_skips :
    (reason id step bead : String) (o : Option BeadRow) (batch : Batch)
    → any (skips reason bead) (skip_row reason id step o batch).0
      ≡ (any (skips reason bead) batch.0 || (id == bead && open_row o))
unfolding any
row_skips reason id step bead none batch = ground arith
row_skips reason id step bead (some row) batch = ground (
  arith,
  any-append (skips reason bead) batch.0
      (campd_input EventType.bead_closed row id (close_data "skipped" reason) ∷ []),
  eq_refl reason,
)

row_notes :
    (reason id step s : String) (o : Option BeadRow) (batch : Batch)
    → contains (skip_row reason id step o batch).1 s
      ≡ (contains batch.1 s || (s == step && open_row o))
row_notes reason id step s none batch = ground arith
row_notes reason id step s (some row) batch = ground (arith, contains-noted step s batch.1)

row_only :
    (reason id step : String) (o : Option BeadRow) (batch : Batch)
    → All (λ i. is_skip reason i ≡ true) batch.0
    → All (λ i. is_skip reason i ≡ true) (skip_row reason id step o batch).0
row_only reason id step none batch h = h
row_only reason id step (some row) batch h = elim (Bool-cases (is_closed row.status)) [
  | inl y ↦ rw y h
  | inr n ↦ rw n (All-append _ batch.0 _ h (ground (arith, eq_refl reason), tt))
]

-- The loop pushes nothing but closes as skipped.
pub skip_steps-only :
    (t : Tables) (reason : String) (ps : List StepBead) (batch : Batch)
    → All (λ i. is_skip reason i ≡ true) batch.0
    → All (λ i. is_skip reason i ≡ true) (skip_steps t reason ps batch).0
unfolding skip_steps
skip_steps-only t reason [] batch h = h
skip_steps-only t reason ((id, none) ∷ ps) batch h = skip_steps-only t reason ps batch h
skip_steps-only t reason ((id, some step) ∷ ps) batch h =
    skip_steps-only t reason ps (skip_row reason id step (get_bead t id) batch)
      (row_only reason id step (get_bead t id) batch h)

-- whether the loop closes a bead, and whether it notes a step
abbrev pub closes_one : Tables → String → StepBead → Bool
closes_one t bead p = p.0 == bead && going t p

abbrev pub notes_one : Tables → String → StepBead → Bool
notes_one t s p = is_text s p.1 && going t p

pub skip_steps-skips :
    (t : Tables) (reason bead : String) (ps : List StepBead) (batch : Batch)
    → any (skips reason bead) (skip_steps t reason ps batch).0
      ≡ (any (skips reason bead) batch.0 || any (closes_one t bead) ps)
unfolding skip_steps any
skip_steps-skips t reason bead [] batch = ground arith
skip_steps-skips t reason bead ((id, none) ∷ ps) batch =
    ground (arith, skip_steps-skips t reason bead ps batch)
skip_steps-skips t reason bead ((id, some step) ∷ ps) batch =
    skip_steps-skips t reason bead ps (skip_row reason id step (get_bead t id) batch)
    ∙ (ground (arith, row_skips reason id step bead (get_bead t id) batch))

pub skip_steps-notes :
    (t : Tables) (reason s : String) (ps : List StepBead) (batch : Batch)
    → contains (skip_steps t reason ps batch).1 s ≡ (contains batch.1 s || any (notes_one t s) ps)
unfolding skip_steps any
skip_steps-notes t reason s [] batch = ground arith
skip_steps-notes t reason s ((id, none) ∷ ps) batch =
    ground (arith, skip_steps-notes t reason s ps batch)
skip_steps-notes t reason s ((id, some step) ∷ ps) batch =
    skip_steps-notes t reason s ps (skip_row reason id step (get_bead t id) batch)
    ∙ (ground
        (arith, row_notes reason id step s (get_bead t id) batch, eq_iff s step, eq_iff step s))

any-rows :
    (P : StepBead → Bool) (run : String) (rows : List Bead)
    → any P (map (λ b. (b.id, b.step_id)) (select (λ b. is_text run b.run_id) rows))
      ≡ any (λ b. is_text run b.run_id && P (b.id, b.step_id)) rows
unfolding any select
any-rows P run [] = refl
any-rows P run (b ∷ rows) = ground (arith, any-rows P run rows)

pub any-run_bead_ids :
    (P : StepBead → Bool) (t : Tables) (run : String)
    → any P (run_bead_ids t run) ≡ any (λ b. is_text run b.run_id && P (b.id, b.step_id)) t.beads
unfolding run_bead_ids
any-run_bead_ids P t run = any-order_by_id P _ ∙ any-rows P run t.beads
