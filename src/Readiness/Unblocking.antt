-- ===== src/Readiness/Unblocking.antt =====
-- What a close unblocks.
use Prim.Native.Nat.{Ordering}
use Prim.Native.String.{compare}
use gascamp.Common.{
  Option, none, some, ◌≡◌, refl, ap, ◌∙◌, String, Bool, true, false, ◌&&◌, ◌||◌, List, [], ◌∷◌,
  is_some, any, contains, select, arith, ◌==◌, is_text, All, eq_iff, eq_refl, if◌then◌else◌,
  Bool-cases, inl, inr,
}
use gascamp.Error.{Result, ok, err}
use gascamp.Schema.{Tables, Bead, is_closed, Dep, bead_row}
use gascamp.Payload.{Serde}
use gascamp.Fold.Rows.{is_dep}
use gascamp.Invariants.Integrity.{references_hold}
use gascamp.Ledger.{Db}
use gascamp.Ledger.Reached.{Reached}
use gascamp.Readiness.{
  is_ready, unmet_dep, is_unmet, insert_distinct, distinct, keep_ready, newly_ready,
}
use gascamp.Readiness.Lists.{any-select, none_selected}

-- the answer of a query that may err
abbrev pub says_yes : Result Bool → Bool
says_yes (ok answer) = answer
says_yes (err _) = false

pub contains-insert_distinct :
    (s id : String) (xs : List String)
    → contains (insert_distinct s xs) id ≡ (id == s || contains xs id)
unfolding insert_distinct
contains-insert_distinct s id [] = refl
contains-insert_distinct s id (x ∷ xs) =
    ground (arith, contains-insert_distinct s id xs, eq_iff s x)

contains-distinct :
    (id : String) (ds : List Dep) → contains (distinct ds) id ≡ any (λ d. id == d.bead_id) ds
unfolding distinct any
contains-distinct id [] = refl
contains-distinct id (d ∷ ds) =
    contains-insert_distinct d.bead_id id (distinct ds)
    ∙ ap (λ b. id == d.bead_id || b) (contains-distinct id ds)

All-insert_distinct :
    (P : String → Type 0) (s : String) (xs : List String)
    → P s
    → All P xs
    → All P (insert_distinct s xs)
unfolding insert_distinct
All-insert_distinct P s [] p h = (p, tt)
All-insert_distinct P s (x ∷ xs) p h =
    elim (compare s x)
      as (λ o. All P (elim o [
        | Ordering.lt ↦ s ∷ x ∷ xs
        | Ordering.eq ↦ x ∷ xs
        | Ordering.gt ↦ x ∷ insert_distinct s xs
      ])) [
        | Ordering.lt ↦ (p, h)
        | Ordering.eq ↦ h
        | Ordering.gt ↦ (h.0, All-insert_distinct P s xs p h.1)
      ]

depends_on :
    (id c : String) (ds : List Dep)
    → any (λ d. d.needs_id == c && id == d.bead_id) ds ≡ any (is_dep id c) ds
unfolding any
depends_on id c [] = refl
depends_on id c (d ∷ ds) =
    ground (arith, depends_on id c ds, eq_iff id d.bead_id, eq_iff d.bead_id id)

listed_dependents :
    (id c : String) (ds : List Dep)
    → contains (distinct (select (λ d. d.needs_id == c) ds)) id ≡ any (is_dep id c) ds
listed_dependents id c ds =
    contains-distinct id (select (λ d. d.needs_id == c) ds)
    ∙ (any-select (λ (d : Dep). id == d.bead_id) (λ d. d.needs_id == c) ds ∙ depends_on id c ds)

module _ (t : Tables) where
  dependents_known :
      (c : String) (ds : List Dep)
      → All (λ d. is_some (bead_row t d.bead_id) ≡ true) ds
      → All (λ s. is_some (bead_row t s) ≡ true) (distinct (select (λ d. d.needs_id == c) ds))
  unfolding distinct select
  dependents_known c [] h = tt
  dependents_known c (d ∷ ds) h = elim (Bool-cases (d.needs_id == c)) [
    | inl y ↦ rw y (All-insert_distinct _ d.bead_id _ h.0 (dependents_known c ds h.1))
    | inr n ↦ rw n (dependents_known c ds h.1)
  ]

  answered :
      (id : String) → is_some (bead_row t id) ≡ true → is_ready t id ≡ ok (says_yes (is_ready t id))
  unfolding is_ready
  answered id h = ground arith

  kept :
      (xs : List String)
      → All (λ s. is_some (bead_row t s) ≡ true) xs
      → (ys : List String) × (keep_ready t xs ≡ ok ys)
        × ((id : String) → contains ys id ≡ (contains xs id && says_yes (is_ready t id)))
  unfolding keep_ready
  kept [] h = ([], refl, λ id. refl)
  kept (x ∷ xs) h =
      let (ys, e, all) = kept xs h.1 in
      let a = answered x h.0 in
      (
        if says_yes (is_ready t x) then x ∷ ys else ys,
        rw (a, e) refl,
        λ id. ground (arith, all id, eq_iff id x),
      )

-- In every history `newly_ready` answers without an error, and lists exactly the beads that depend on
-- the closed bead and are ready.
pub newly_ready_lem :
    (S : Serde) {db : Db S.Value}
    → Reached S db
    → (closed_bead : String)
    → (ids : List String) × (newly_ready db.tables closed_bead ≡ ok ids)
      × ((id : String)
          → contains ids id
            ≡ (any (is_dep id closed_bead) db.tables.deps && says_yes (is_ready db.tables id)))
unfolding newly_ready
newly_ready_lem S {db} r c =
    let (ids, e, all) =
      kept db.tables _ (dependents_known db.tables c db.tables.deps (references_hold S r).deps) in
    (
      ids,
      e,
      λ id.
          all id
          ∙ ap (λ b. b && says_yes (is_ready db.tables id)) (listed_dependents id c db.tables.deps),
    )

-- no text is listed
listed_nothing : (ids : List String) → ((id : String) → contains ids id ≡ false) → ids ≡ []
listed_nothing [] h = refl
listed_nothing (x ∷ xs) h = absurd (let e = h x in ground (arith, eq_refl x, e))

module _ (t : Tables) (c : String) (unmet : is_unmet (bead_row t c) ≡ true) where
  still_unmet :
      (id : String) (ds : List Dep) → any (is_dep id c) ds ≡ true → any (unmet_dep t id) ds ≡ true
  unfolding any
  still_unmet id [] h = h
  still_unmet id (d ∷ ds) h = elim (Bool-cases (is_dep id c d)) [
    | inl y ↦
        (let same : d.needs_id ≡ c = (eq_iff d.needs_id c).0 (ground arith) in
          let waits : is_unmet (bead_row t d.needs_id) ≡ true = rw same unmet in ground arith)
    | inr n ↦ ground (arith, still_unmet id ds)
  ]

  not_ready : (id : String) → any (is_dep id c) t.deps ≡ true → says_yes (is_ready t id) ≡ false
  unfolding is_ready
  not_ready id h =
      let waits = still_unmet id t.deps h in
      ground (arith, waits, none_selected (unmet_dep t id) t.deps)

-- A dependency that the queries count as unmet:
unmet_unblocks_nothing :
    (S : Serde) {db : Db S.Value}
    → Reached S db
    → (closed_bead : String) → is_unmet (bead_row db.tables closed_bead) ≡ true
    → newly_ready db.tables closed_bead ≡ ok []
unmet_unblocks_nothing S {db} r c unmet =
    let (ids, e, all) = newly_ready_lem S r c in
    e
    ∙ ap ok
        (listed_nothing ids (λ id. none_listed id (any (is_dep id c) db.tables.deps) refl (all id)))
  where
    none_listed :
        {l : Bool} (id : String) (b : Bool)
        → any (is_dep id c) db.tables.deps ≡ b
        → l ≡ (any (is_dep id c) db.tables.deps && says_yes (is_ready db.tables id))
        → l ≡ false
    none_listed id true h e = ground (arith, not_ready db.tables c unmet id h)
    none_listed id false h e = ground arith

-- closed with the outcome `pass`
abbrev pub has_passed : Option Bead → Bool
has_passed none = false
has_passed (some b) = is_closed b.status && is_text "pass" b.outcome

unmet : (r : Option Bead) → has_passed r ≡ false → is_unmet r ≡ true
unmet none h = refl
unmet (some b) h = ground arith

-- In every history a bead that is not there, is not closed, or was closed with another outcome than
-- `pass` unblocks nothing.
pub no_pass_unblocks_nothing :
    (S : Serde) {db : Db S.Value}
    → Reached S db
    → (closed_bead : String) → has_passed (bead_row db.tables closed_bead) ≡ false
    → newly_ready db.tables closed_bead ≡ ok []
no_pass_unblocks_nothing S {db} r c h =
    unmet_unblocks_nothing S r c (unmet (bead_row db.tables c) h)
