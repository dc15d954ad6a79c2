-- ===== src/Invariants/Rows.antt =====
-- The row of a bead, across the statements that change beads.
use gascamp.Common.{
  Option, ◌≡◌, refl, sym, ap, ◌∙◌, String, Bool, true, some, is_some, arith, find-append,
  find-update_where, find-key, changed, or_else, when_key, eq_iff, ◌==◌,
}
use gascamp.Schema.{Tables, Bead, BeadStatus, bead_key, bead_row}
use gascamp.Fold.Guards.{bead_status}
use gascamp.Fold.Rows.{insert_bead, update_beads, with_id}
use gascamp.Fold.Write.{Write}
use gascamp.Fold.Rows
use gascamp.Fold.Sessions

-- an UPDATE that leaves `id` alone
abbrev pub KeepsId : (Bead → Bead) → Type 0
KeepsId f = (b : Bead) → (f b).id ≡ b.id

pub row-update_beads :
    (p : Bead → Bool) (f : Bead → Bead)
    → KeepsId f
    → (t : Tables) (id : String) → bead_row (update_beads p f t) id ≡ changed p f (bead_row t id)
unfolding update_beads
row-update_beads p f keeps t id = find-update_where bead_key p f keeps id t.beads

pub row-insert_bead :
    (b : Bead) (t : Tables) (id : String)
    → bead_row (insert_bead b t) id ≡ or_else (bead_row t id) (when_key (b.id == id) b)
unfolding insert_bead
row-insert_bead b t id = find-append bead_key id t.beads b

-- The row that an UPDATE by id changes is the one that a SELECT by that id returns.
pub row_of_with_id :
    (t : Tables) (id j : String) (b : Bead)
    → bead_row t id ≡ some b
    → with_id j b ≡ true
    → bead_row t j ≡ some b
row_of_with_id t id j b row h =
    let key : b.id ≡ id = find-key bead_key id t.beads b row in
    let same : b.id ≡ j = (eq_iff b.id j).0 h in ap (bead_row t) (sym same ∙ key) ∙ row

pub status_of_row :
    (t : Tables) (id : String) {b : Bead} {s : BeadStatus}
    → bead_row t id ≡ some b
    → bead_status t id ≡ some s
    → b.status ≡ s
status_of_row t id row h = ground arith

module _ (t : Tables) (id : String) (there : is_some (bead_row t id) ≡ true) where
  row_stays-update_beads :
      (p : Bead → Bool) (f : Bead → Bead)
      → KeepsId f
      → is_some (bead_row (update_beads p f t) id) ≡ true
  row_stays-update_beads p f keeps = rw (row-update_beads p f keeps t id) (ground arith)

  row_stays-insert_bead : (b : Bead) → is_some (bead_row (insert_bead b t) id) ≡ true
  row_stays-insert_bead b = rw (row-insert_bead b t id) (ground arith)

-- No statement makes a bead vanish.
pub row_stays :
    {V : Type 0} {created : Option String} {t u : Tables}
    → Write V created t u
    → (id : String) → is_some (bead_row t id) ≡ true
    → is_some (bead_row u id) ≡ true
unfolding Rows.insert_dep Rows.insert_search Rows.rewrite_body_search_row Sessions.insert_session
    Sessions.update_sessions
row_stays {t = t} (Write.insert_bead i rig ts p _ _ _ _) id h = row_stays-insert_bead t id h _
row_stays {t = t} (Write.claim i ts p _) id h = row_stays-update_beads t id h _ _ (λ b. refl)
row_stays {t = t} (Write.clear i) id h = row_stays-update_beads t id h _ _ (λ b. refl)
row_stays {t = t} (Write.patch i ts p _) id h = row_stays-update_beads t id h _ _ (λ b. refl)
row_stays {t = t} (Write.close i e p s _ _ _) id h = row_stays-update_beads t id h _ _ (λ b. refl)
row_stays {t = t} (Write.fail i ts reason) id h = row_stays-update_beads t id h _ _ (λ b. refl)
row_stays {t = t} (Write.rearm i ts) id h = row_stays-update_beads t id h _ _ (λ b. refl)
row_stays {t = t} (Write.release n ts) id h = row_stays-update_beads t id h _ _ (λ b. refl)
row_stays _ id h = h
