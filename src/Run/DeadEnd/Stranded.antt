-- ===== src/Run/DeadEnd/Stranded.antt =====
-- crates/camp-core/src/formula/runtime.rs: the beads of a run that the loop of `dead_end_inputs` closes.
use gascamp.Common.{
  ◌≡◌, refl, ◌∙◌, String, Bool, false, not, Option, none, some, List, [], ◌∷◌, ◌&&◌, find, any,
  is_some, is_text, arith, All, All-map, Unique, Option-cases, Bool-cases, inl, inr, ◌==◌, eq_iff,
  eq_refl,
}
use gascamp.Schema.{Tables, Bead, is_closed, bead_key, bead_row}
use gascamp.Readiness.Lists.{absent, any-Unique}
use gascamp.Run.DeadEnd.{run_bead_ids}
use gascamp.Run.DeadEnd.Loop.{going, closes_one, notes_one, any-run_bead_ids}

-- a bead of the run that has a step and is not closed
abbrev pub is_stranded : String → Bead → Bool
is_stranded run b = is_text run b.run_id && is_some b.step_id && not (is_closed b.status)

abbrev pub row_is_stranded : String → Option Bead → Bool
row_is_stranded run none = false
row_is_stranded run (some b) = is_stranded run b

any-same :
    (P Q : Bead → Bool) → ((b : Bead) → P b ≡ Q b) → (rows : List Bead) → any P rows ≡ any Q rows
unfolding any
any-same P Q h [] = refl
any-same P Q h (b ∷ rows) = ground (arith, h b, any-same P Q h rows)

at_id :
    (t : Tables) (run id : String) (b : Bead)
    → (is_text run b.run_id && closes_one t id (b.id, b.step_id))
      ≡ ((is_text run b.run_id && going t (id, b.step_id)) && b.id == id)
at_id t run id b = elim (Bool-cases (b.id == id)) [
  | inl y ↦ (let same : b.id ≡ id = (eq_iff b.id id).0 y in rw same (ground arith))
  | inr n ↦ ground (arith, n)
]

pub closes_row :
    (t : Tables) (run id : String)
    → Unique bead_key t.beads
    → any (closes_one t id) (run_bead_ids t run) ≡ row_is_stranded run (bead_row t id)
closes_row t run id u =
    any-run_bead_ids (closes_one t id) t run
    ∙ any-same _ _ (at_id t run id) t.beads
    ∙ elim (Option-cases (bead_row t id)) [
      | inl gone ↦ absent bead_key id own t.beads gone ∙ (rw gone refl)
      | inr (b, row) ↦ any-Unique bead_key id own t.beads b u row ∙ (rw row (ground (arith, row)))
    ]
  where
    own : Bead → Bool
    own b = is_text run b.run_id && going t (id, b.step_id)

-- With a primary key, a SELECT by the key of a row returns the row.
found_all :
    (rows : List Bead) → Unique bead_key rows → All (λ b. find bead_key b.id rows ≡ some b) rows
unfolding find
found_all [] u = tt
found_all (x ∷ rows) u =
    (ground (arith, eq_refl x.id), All-map _ _ behind rows (found_all rows u.1))
  where
    behind : (b : Bead) → find bead_key b.id rows ≡ some b → find bead_key b.id (x ∷ rows) ≡ some b
    behind b row = elim (Bool-cases (x.id == b.id)) [
      | inl y ↦
          (let same : x.id ≡ b.id = (eq_iff x.id b.id).0 y in
            let gone : find bead_key b.id rows ≡ none = rw (← same) u.0 in absurd (cc))
      | inr n ↦ ground (arith, n, row)
    ]

any-All :
    (P Q : Bead → Bool) (rows : List Bead) → All (λ b. P b ≡ Q b) rows → any P rows ≡ any Q rows
unfolding any
any-All P Q [] h = refl
any-All P Q (b ∷ rows) h = ground (arith, h.0, any-All P Q rows h.1)

pub notes_rows :
    (t : Tables) (run s : String)
    → Unique bead_key t.beads
    → any (notes_one t s) (run_bead_ids t run)
      ≡ any (λ b. is_stranded run b && is_text s b.step_id) t.beads
notes_rows t run s u =
    any-run_bead_ids (notes_one t s) t run
    ∙ any-All _ _ t.beads (All-map _ _ own t.beads (found_all t.beads u))
  where
    own :
        (b : Bead)
        → bead_row t b.id ≡ some b
        → (is_text run b.run_id && notes_one t s (b.id, b.step_id))
          ≡ (is_stranded run b && is_text s b.step_id)
    own b row = ground (arith, row)
