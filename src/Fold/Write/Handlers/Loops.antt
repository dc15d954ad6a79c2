-- ===== src/Fold/Write/Handlers/Loops.antt =====
-- The loops of `bead_created` and `bead_updated`, as statements of `Write`.
use mathlib.Core.Path.{subst}
use gascamp.Common.{
  ◌≡◌, refl, String, true, Option, none, some, List, [], ◌∷◌, is_some, any, arith, ◌==◌, ◌&&◌, ◌∙◌,
  sym, find,
}
use gascamp.Error.{CoreError, Result, ok, ◌>>◌, >>=-eq-ok, refuse_if-eq-ok}
use gascamp.Schema.{Tables, Bead, bead_key, bead_row}
use gascamp.Event.{Event}
use gascamp.Fold.Beads.{insert_deps}
use gascamp.Fold.Rows.{insert_dep, is_dep}
use gascamp.Fold.Metadata.{
  write_meta, write_each, update_each, set_or_unset, column_of, projected_metadata, refuse_column,
  exclusive_drain_reservation, is_other, meta_value,
}
use gascamp.Fold.Write.{Write, Writes, done, next, Writes-append}

-- The statements run, and the beads stay as they are.
abbrev pub Ran : Type 0 → Option String → Tables → Tables → Type 0
Ran V created t u = Writes V created t u × (u.beads ≡ t.beads)

refuse_column-eq-ok :
    (x : CoreError) (k : Result Tables) {u : Tables} (column : Option String)
    → (refuse_column x column >> k) ≡ ok u
    → (column ≡ none) × (k ≡ ok u)
refuse_column-eq-ok x k none h = (refl, h)
refuse_column-eq-ok x k (some c) h = absurd (cc)

still_there :
    (id : String) (t u : Tables)
    → u.beads ≡ t.beads
    → is_some (bead_row t id) ≡ true
    → is_some (bead_row u id) ≡ true
still_there id t u same h =
    subst (λ (l : List Bead). is_some (find bead_key id l) ≡ true) (sym same) h

module _ {V : Type 0} {created : Option String} (e : Event V) (id : String) where
  Ran-append : {t u v : Tables} → Ran V created t u → Ran V created u v → Ran V created t v
  Ran-append r s = (Writes-append r.0 s.0, s.1 ∙ r.1)

  pub insert_deps-Writes :
      (needs : List String) (t : Tables) {u : Tables}
      → is_some (bead_row t id) ≡ true
      → insert_deps e id needs t ≡ ok u
      → Ran V created t u
  unfolding insert_deps
  insert_deps-Writes [] t {u} known h = subst (Ran V created t) (ground arith) (done, refl)
  insert_deps-Writes (n ∷ rest) t known h =
      let (fresh, h') = refuse_if-eq-ok (any (is_dep id n) t.deps) _ _ h in
      Ran-append (next done (Write.insert_dep id n known fresh), unfold insert_dep in refl)
        (insert_deps-Writes rest (insert_dep id n t) (unfold insert_dep in known) h')

  write_meta-Writes :
      (key value : String) (t : Tables) {u : Tables}
      → is_some (bead_row t id) ≡ true
      → write_meta e id key value t ≡ ok u
      → Ran V created t u
  unfolding write_meta
  write_meta-Writes key value t known h =
      let (unprojected, h') = refuse_column-eq-ok _ _ (column_of key projected_metadata) h in
      let (free, h'') =
        refuse_if-eq-ok
          (key == exclusive_drain_reservation && is_other value (meta_value id key t.bead_meta)) _ _
          h' in
      subst (Ran V created t) (ground arith)
        (next done (Write.put id key value known unprojected free), refl)

  pub write_each-Writes :
      (entries : List (String × String)) (t : Tables) {u : Tables}
      → is_some (bead_row t id) ≡ true
      → write_each e id entries t ≡ ok u
      → Ran V created t u
  unfolding write_each
  write_each-Writes [] t known h = subst (Ran V created t) (ground arith) (done, refl)
  write_each-Writes ((key, value) ∷ rest) t known h =
      let (t', first, h') = >>=-eq-ok (write_meta e id key value t) _ h in
      let r = write_meta-Writes key value t known first in
      Ran-append r (write_each-Writes rest t' (still_there id t t' r.1 known) h')

  set_or_unset-Writes :
      (key : String) (value : Option String) (t : Tables) {u : Tables}
      → is_some (bead_row t id) ≡ true
      → set_or_unset e id key value t ≡ ok u
      → Ran V created t u
  set_or_unset-Writes key (some value) t known h = write_meta-Writes key value t known h
  set_or_unset-Writes key none t known h =
      subst (Ran V created t) (ground arith) (next done (Write.unset id key), refl)

  pub update_each-Writes :
      (entries : List (String × Option String)) (t : Tables) {u : Tables}
      → is_some (bead_row t id) ≡ true
      → update_each e id entries t ≡ ok u
      → Ran V created t u
  unfolding update_each
  update_each-Writes [] t known h = subst (Ran V created t) (ground arith) (done, refl)
  update_each-Writes ((key, value) ∷ rest) t known h =
      let (t', first, h') = >>=-eq-ok (set_or_unset e id key value t) _ h in
      let r = set_or_unset-Writes key value t known first in
      Ran-append r (update_each-Writes rest t' (still_there id t t' r.1 known) h')
