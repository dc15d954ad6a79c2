-- ===== src/Refold/Drift.antt =====
-- crates/camp-core/src/ledger/refold.rs: what the diff of `refold_check` finds.
use gascamp.Common.{
  ◌≡◌, refl, sym, ◌∙◌, ℕ, String, true, List, [], ◌∷◌, ◌++◌, map, ◌⊎◌, inl, inr, ◌↔◌, Bool-cases,
}
use gascamp.Error.{ok}
use gascamp.Schema.{Tables}
use gascamp.Schema.Rows.{
  Bead-discrete, Meta-discrete, Dep-discrete, Session-discrete, SearchRow-discrete,
  Counter-discrete, Permission-discrete,
}
use gascamp.Payload.{Serde}
use gascamp.Ledger.{Db}
use gascamp.Refold.{
  member, except, collect_keys, diff_table, diff_all, DriftEntry, RefoldReport, build_shadow,
  refold_check,
}

-- the row stands in the table
abbrev pub IsRow : {R : Type 0} → R → List R → Type 0
IsRow r [] = ⊥
IsRow r (x ∷ rows) = (r ≡ x) ⊎ IsRow r rows

-- the tables have the same rows, in whatever order and however often
abbrev pub SameRows : {R : Type 0} → List R → List R → Type 0
SameRows {R = R} xs ys = (r : R) → IsRow r xs ↔ IsRow r ys

append_nil {ℓ} : {A : Type ℓ} (xs ys : List A) → xs ++ ys ≡ [] → (xs ≡ []) × (ys ≡ [])
append_nil [] ys h = (refl, h)
append_nil (x ∷ xs) ys h = absurd (cc)

module _ {R : Type 0} (dec : Discrete R) where
  member-IsRow : (r : R) (rows : List R) → (member dec r rows ≡ true) ↔ IsRow r rows
  unfolding member
  member-IsRow r [] = ((λ h. absurd (cc)), (λ h. absurd h))
  member-IsRow r (x ∷ rows) = go (dec r x) (member-IsRow r rows)
    where
      go :
          (d : Dec (r ≡ x))
          → ((member dec r rows ≡ true) ↔ IsRow r rows)
          → ((elim d [ yes _ ↦ true | no _ ↦ member dec r rows ]) ≡ true) ↔ ((r ≡ x) ⊎ IsRow r rows)
      go (yes e) ih = ((λ h. inl e), (λ h. refl))
      go (no n) ih = ((λ h. inr (ih.0 h)), (λ h. elim h [ inl e ↦ absurd (n e) | inr k ↦ ih.1 k ]))

  not_there : (r : R) (rows : List R) → rows ≡ [] → member dec r rows ≡ true → ⊥
  unfolding member
  not_there r [] e h = absurd (cc)
  not_there r (x ∷ rows) e h = absurd (cc)

  except_empty :
      (have lack : List R) → except dec have lack ≡ [] → (r : R) → IsRow r have → IsRow r lack
  unfolding except
  except_empty [] lack h r k = absurd k
  except_empty (x ∷ have) lack h r k = elim (Bool-cases (member dec x lack)) [
    | inl y ↦
        (let rest : except dec have lack ≡ [] = sym (rw (except, y) refl) ∙ h in
          elim k [
            | inl e ↦ rw e ((member-IsRow x lack).0 y)
            | inr later ↦ except_empty have lack rest r later
          ])
    | inr n ↦ elim (Bool-cases (member dec x (except dec have lack))) [
      | inl again ↦
          (let rest : except dec have lack ≡ [] = sym (rw (except, n, again) refl) ∙ h in
            absurd (not_there x (except dec have lack) rest again))
      | inr new ↦
          (let whole : x ∷ except dec have lack ≡ [] = sym (rw (except, n, new) refl) ∙ h in
            absurd (cc))
    ]
  ]

  empty_except :
      (have lack : List R) → ((r : R) → IsRow r have → IsRow r lack) → except dec have lack ≡ []
  unfolding except
  empty_except [] lack h = refl
  empty_except (x ∷ have) lack h =
      rw ((member-IsRow x lack).1 (h x (inl refl)), except)
        (empty_except have lack (λ r k. h r (inr k)))

  map_nil : (f : R → DriftEntry) (xs : List R) → map f xs ≡ [] → xs ≡ []
  map_nil f [] h = refl
  map_nil f (x ∷ xs) h = absurd (cc)

  diff_table_lem :
      (key : R → String) (table : String) (live fold : List R)
      → (diff_table dec key table live fold ≡ []) ↔ SameRows live fold
  unfolding diff_table collect_keys
  diff_table_lem key table live fold = (
    (λ h r.
        let (a, b) = append_nil _ _ h in
        (except_empty live fold (map_nil _ _ b) r, except_empty fold live (map_nil _ _ a) r)),
    (λ h. rw (empty_except fold live (λ r. (h r).1), empty_except live fold (λ r. (h r).0)) refl),
  )

-- The state tables have the same rows.
pub record AgreeWith (live fold : Tables) : Type 0 where
  pub beads : SameRows live.beads fold.beads
  pub bead_meta : SameRows live.bead_meta fold.bead_meta
  pub deps : SameRows live.deps fold.deps
  pub sessions : SameRows live.sessions fold.sessions
  pub search : SameRows live.search fold.search
  pub counters : SameRows live.counters fold.counters
  pub permissions : SameRows live.permissions fold.permissions

diff_all_lem : (live fold : Tables) → (diff_all live fold ≡ []) ↔ AgreeWith live fold
unfolding diff_all
diff_all_lem live fold = (
  (λ h.
      let (a, h₁) = append_nil _ _ h in
      let (b, h₂) = append_nil _ _ h₁ in
      let (c, h₃) = append_nil _ _ h₂ in
      let (d, h₄) = append_nil _ _ h₃ in
      let (e, h₅) = append_nil _ _ h₄ in
      let (f, g) = append_nil _ _ h₅ in
      record {
        beads = (diff_table_lem _ _ _ _ _).0 a;
        bead_meta = (diff_table_lem _ _ _ _ _).0 b;
        deps = (diff_table_lem _ _ _ _ _).0 c;
        sessions = (diff_table_lem _ _ _ _ _).0 d;
        search = (diff_table_lem _ _ _ _ _).0 e;
        counters = (diff_table_lem _ _ _ _ _).0 f;
        permissions = (diff_table_lem _ _ _ _ _).0 g;
      }),
  (λ h.
      rw
        (
          (diff_table_lem Bead-discrete _ _ _ _).1 h.beads,
          (diff_table_lem Meta-discrete _ _ _ _).1 h.bead_meta,
          (diff_table_lem Dep-discrete _ _ _ _).1 h.deps,
          (diff_table_lem Session-discrete _ _ _ _).1 h.sessions,
          (diff_table_lem SearchRow-discrete _ _ _ _).1 h.search,
          (diff_table_lem Counter-discrete _ _ _ _).1 h.counters,
          (diff_table_lem Permission-discrete _ _ _ _).1 h.permissions,
        )
        refl),
)

-- Whatever the live state tables hold: where the log replays, `refold_check` returns a report that counts the
-- replayed events, and its drift is empty exactly where each of the seven live tables has the same rows,
-- in every column, as the table that the replay rebuilds.
pub refold_check_lem :
    (S : Serde) (db : Db S.Value) (replayed : ℕ) (shadow : Tables)
    → build_shadow S db ≡ ok (replayed, shadow)
    → (report : RefoldReport) × (refold_check S db ≡ ok report)
      × (report.events_replayed ≡ replayed)
      × ((report.drift ≡ []) ↔ AgreeWith db.tables shadow)
unfolding refold_check
refold_check_lem S db replayed shadow h = (
  record { events_replayed = replayed; drift = diff_all db.tables shadow },
  rw (refold_check, h) refl,
  refl,
  diff_all_lem db.tables shadow,
)
