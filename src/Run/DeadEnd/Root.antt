-- ===== src/Run/DeadEnd/Root.antt =====
-- crates/camp-core/src/formula/runtime.rs: the bead that `dead_end_inputs` takes for the root.
use mathlib.Core.Path.{subst}
use gascamp.Common.{
  ◌≡◌, refl, sym, ap, true, is_none, ◌||◌, All-find, find-key, ◌∙◌, String, Bool, false, not,
  Option, none, some, List, [], ◌∷◌, ◌&&◌, find, any, is_text, arith, All, Unique, Option-cases,
  Bool-cases, inl, inr, ◌==◌, eq_iff,
}
use gascamp.Schema.{Tables, Bead, is_closed, bead_key, bead_row}
use gascamp.Run.DeadEnd.{StepBead, run_bead_ids, root_of}
use gascamp.Run.DeadEnd.Loop.{any-run_bead_ids}
use gascamp.Run.DeadEnd.Stranded.{row_is_stranded}

-- the root that is found has no step, and stands among the beads
root_of-found :
    (ps : List StepBead) (x : String)
    → root_of ps ≡ some x
    → any (λ (p : StepBead). p.0 == x && is_none p.1) ps ≡ true
unfolding root_of any
root_of-found [] x h = absurd (cc)
root_of-found ((id, none) ∷ ps) x h = ground (arith, h, eq_iff id x)
root_of-found ((id, some step) ∷ ps) x h = ground (arith, root_of-found ps x h)

root_of-none :
    (ps : List StepBead) → root_of ps ≡ none → any (λ (p : StepBead). is_none p.1) ps ≡ false
unfolding root_of any
root_of-none [] h = refl
root_of-none ((id, none) ∷ ps) h = absurd (cc)
root_of-none ((id, some step) ∷ ps) h = ground (arith, root_of-none ps h)

-- the bead is the only one of the run that has no step
abbrev pub is_only_root : String → String → Bead → Bool
is_only_root run root b = not (is_text run b.run_id && is_none b.step_id) || b.id == root

none_other :
    (run root x : String) (rows : List Bead)
    → All (λ b. is_only_root run root b ≡ true) rows
    → any (λ (b : Bead). is_text run b.run_id && (b.id == x && is_none b.step_id)) rows ≡ true
    → x ≡ root
unfolding any
none_other run root x [] h e = absurd (cc)
none_other run root x (b ∷ rows) h e =
    elim (Bool-cases (is_text run b.run_id && (b.id == x && is_none b.step_id))) [
      | inl y ↦
          sym ((eq_iff b.id x).0 (ground (arith, y)))
          ∙ (eq_iff b.id root).0 (ground (arith, y, h.0))
      | inr n ↦ none_other run root x rows h.1 (ground (arith, n, e))
    ]

there :
    (P : Bead → Bool) (id : String) (rows : List Bead) (b : Bead)
    → find bead_key id rows ≡ some b
    → P b ≡ true
    → any P rows ≡ true
unfolding find any
there P id [] b h p = absurd (cc)
there P id (x ∷ rows) b h p = elim (Bool-cases (x.id == id)) [
  | inl y ↦ (let same : x ≡ b = ground (arith, y, h) in rw same (ground (arith, p)))
  | inr n ↦ ground (arith, there P id rows b (ground (arith, n, h)) p)
]

-- What is known of a run: its root is not closed, and is its only bead without a step.
pub record IsRun (t : Tables) (run root : String) (b : Bead) : Type 0 where
  pub keys : Unique bead_key t.beads
  pub row : bead_row t root ≡ some b
  pub of_run : is_text run b.run_id ≡ true
  pub no_step : b.step_id ≡ none
  pub going : is_closed b.status ≡ false
  pub only : All (λ b. is_only_root run root b ≡ true) t.beads

pub finds_root :
    (t : Tables) (run root : String) (b : Bead)
    → IsRun t run root b
    → root_of (run_bead_ids t run) ≡ some root
finds_root t run root b r = elim (Option-cases (root_of (run_bead_ids t run))) [
  | inl gone ↦ absurd (
      let no = root_of-none (run_bead_ids t run) gone in
      let shown =
        any-run_bead_ids (λ (p : StepBead). is_none p.1) t run
        ∙ there (λ (b : Bead). is_text run b.run_id && is_none b.step_id) root t.beads b r.row
            (ground (arith, r.of_run, r.no_step)) in
      ground (arith, no, shown))
  | inr (x, found) ↦
      found
      ∙ ap some (
          none_other run root x t.beads r.only (
            sym (any-run_bead_ids (λ (p : StepBead). p.0 == x && is_none p.1) t run)
            ∙ root_of-found (run_bead_ids t run) x found))
]

-- a bead of the run that is not closed, other than its root
abbrev pub is_left_open : String → String → Option Bead → Bool
is_left_open run root none = false
is_left_open run root (some b) =
    is_text run b.run_id && not (is_closed b.status) && not (b.id == root)

pub left_open :
    (t : Tables) (run root id : String) (b : Bead)
    → IsRun t run root b
    → row_is_stranded run (bead_row t id) ≡ is_left_open run root (bead_row t id)
left_open t run root id b r = elim (Option-cases (bead_row t id)) [
  | inl gone ↦ rw gone refl
  | inr (x, row) ↦
      (let only = All-find bead_key (λ b. is_only_root run root b ≡ true) id t.beads x r.only row in
        let key : x.id ≡ id = find-key bead_key id t.beads x row in
        elim (Bool-cases (x.id == root)) [
          | inl y ↦
              (let at : x.id ≡ root = (eq_iff x.id root).0 y in
                let same : x ≡ b =
                  ground (arith, row, subst (λ i. bead_row t i ≡ some b) (sym at ∙ key) r.row) in
                let gone : x.step_id ≡ none = rw same r.no_step in rw row (ground (arith, y, gone)))
          | inr n ↦ rw row (ground (arith, n, only))
        ])
]
