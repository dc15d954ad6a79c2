-- ===== src/Invariants/Numbers.antt =====
-- crates/camp-core/src/id.rs and `bead_created` of ledger/fold.rs: the counters bound the numbers of
-- all beads.
use mathlib.Core.Path.{subst}
use gascamp.Common.{
  ◌≡◌, refl, sym, ap, ◌∙◌, String, Bool, true, false, not, Option, none, some, is_some, find,
  contains, is_blank, arith, Bool-cases, Option-cases, inl, inr, ◌⊎◌, eq_iff,
}
use gascamp.Error.{ok, >>=-eq-ok, refuse_if-eq-ok, ok_or, ok_or-eq-ok, missing_rig}
use gascamp.Event.{Event, EventType}
use gascamp.Schema.{Tables, Bead, bead_row, no_rows}
use gascamp.Payload.{Serde}
use gascamp.Ids.{parse_bead_id, next_bead_id, numbered, validate_prefix, is_prefix}
use gascamp.Ids.Counting.{
  high_of, IsCounted, IsCounted-raise, next_number, parse_numbered, bump_counter-IsCounted,
  some_injective, counted_not_next,
}
use gascamp.Fold.{handle, apply}
use gascamp.Fold.Guards.{bad, bead_status, required_bead, payload}
use gascamp.Fold.Rows
use gascamp.Fold.Rows.{new_bead, insert_bead, update_beads}
use gascamp.Fold.Sessions
use gascamp.Fold.Beads.{bead_types, bead_created, insert_deps}
use gascamp.Fold.Metadata.{write_each}
use gascamp.Fold.Write.{Write, Writes-keep, created_by}
use gascamp.Fold.Write.Apply.{apply-Writes}
use gascamp.Ledger.{Db, new_db, set_cursor}
use gascamp.Ledger.Log.{insert_and_fold-IsAppended}
use gascamp.Ledger.Reached.{Reached, Reached-keeps}
use gascamp.Invariants.Rows.{row-update_beads, row-insert_bead, KeepsId}

-- Every bead is counted, but perhaps the one that the event creates.
abbrev AreCounted : Option String → Tables → Type 0
AreCounted created t =
    (id : String) → is_some (bead_row t id) ≡ true → (created ≡ some id) ⊎ IsCounted t.counters id

updated :
    {created : Option String} (t : Tables) (p : Bead → Bool) (f : Bead → Bead)
    → KeepsId f
    → AreCounted created t
    → AreCounted created (update_beads p f t)
unfolding update_beads
updated t p f keeps h id there = h id (ground (arith, there, row-update_beads p f keeps t id))

Write-AreCounted :
    {V : Type 0} {created : Option String} (t u : Tables)
    → Write V created t u
    → AreCounted created t
    → AreCounted created u
unfolding Rows.insert_dep Rows.insert_search Rows.rewrite_body_search_row Sessions.insert_session
    Sessions.update_sessions new_bead insert_bead
Write-AreCounted {created = created} t u (Write.insert_bead i r ts p made fresh b c) h =
    λ id there. inserted id there (Bool-cases (is_some (bead_row t id)))
  where
    inserted :
        (id : String)
        → is_some (bead_row (insert_bead (new_bead i r p ts) t) id) ≡ true
        → (is_some (bead_row t id) ≡ true) ⊎ (is_some (bead_row t id) ≡ false)
        → (created ≡ some id) ⊎ IsCounted t.counters id
    inserted id there (inl old) = h id old
    inserted id there (inr new) = inl (
        made
        ∙ ap some (
            (eq_iff i id).0 (ground (arith, there, new, row-insert_bead (new_bead i r p ts) t id))))
Write-AreCounted t u (Write.count prefix n) h = λ id there. elim (h id there) [
  | inl c ↦ inl c
  | inr k ↦ inr (IsCounted-raise t.counters prefix n id k)
]
Write-AreCounted t u (Write.claim i ts p a) h = updated t _ _ (λ b. refl) h
Write-AreCounted t u (Write.clear i) h = updated t _ _ (λ b. refl) h
Write-AreCounted t u (Write.patch i ts p a) h = updated t _ _ (λ b. refl) h
Write-AreCounted t u (Write.close i e p s a b c) h = updated t _ _ (λ b. refl) h
Write-AreCounted t u (Write.fail i ts r) h = updated t _ _ (λ b. refl) h
Write-AreCounted t u (Write.rearm i ts) h = updated t _ _ (λ b. refl) h
Write-AreCounted t u (Write.release n ts) h = updated t _ _ (λ b. refl) h
Write-AreCounted t u _ h = h

module _ (S : Serde) where
  -- The bead that is created is counted at the end.
  created-IsCounted :
      (e : Event S.Value) (t : Tables) {u : Tables} (id : String)
      → bead_created S e t ≡ ok u
      → e.bead ≡ some id
      → IsCounted u.counters id
  unfolding bead_created
  created-IsCounted e t {u} id h is =
      let (id', hid, h₁) = >>=-eq-ok (required_bead e) _ h in
      let (rig, hrig, h₂) = >>=-eq-ok (ok_or e.rig (bad e missing_rig)) _ h₁ in
      let (p, hp, h₃) = >>=-eq-ok (payload e (S.as_bead_created e.payload)) _ h₂ in
      let (typed, h₄) = refuse_if-eq-ok (not (contains bead_types p.bead_type)) _ _ h₃ in
      let (titled, h₅) = refuse_if-eq-ok (is_blank p.title) _ _ h₄ in
      let (fresh, h₆) = refuse_if-eq-ok (is_some (bead_status t id')) _ _ h₅ in
      let (t₁, deps, h₇) =
        >>=-eq-ok (insert_deps e id' p.needs (insert_bead (new_bead id' rig p e.ts) t)) _ h₆ in
      let (t₂, metas, h₈) = >>=-eq-ok (write_each e id' p.metadata t₁) _ h₇ in
      let same : id' ≡ id = some_injective (sym (ok_or-eq-ok e.bead _ hid) ∙ is) in
      subst (IsCounted u.counters) same (bump_counter-IsCounted id' _ h₈)

  -- what is left of the event's own bead
  settled :
      (k : EventType) (bead : Option String) (u : Tables)
      → ((id : String) → k ≡ EventType.bead_created → bead ≡ some id → IsCounted u.counters id)
      → AreCounted (created_by k bead) u
      → AreCounted none u
  settled EventType.bead_created bead u own h =
      λ id there. elim (h id there) [ inl c ↦ inr (own id refl c) | inr k ↦ inr k ]
  settled _ bead u own h = h

  apply-AreCounted :
      (e : Event S.Value) (t : Tables) {u : Tables}
      → apply S e t ≡ ok u
      → AreCounted none t
      → AreCounted none u
  unfolding apply handle
  apply-AreCounted e t {u} h c =
      settled e.kind e.bead u
        (λ id k is. created-IsCounted e t {u = u} id (rw (← h) (rw (apply, k) refl)) is)
        (Writes-keep (AreCounted (created_by e.kind e.bead)) (λ t u w. Write-AreCounted t u w)
          (apply-Writes S e t h) (λ id there. inr (none_left (c id there))))
    where
      none_left :
          {id : String} → (none ≡ some id) ⊎ IsCounted t.counters id → IsCounted t.counters id
      none_left (inl x) = absurd (cc)
      none_left (inr k) = k

  nothing_counted : AreCounted none no_rows
  unfolding find
  nothing_counted id there = absurd (cc)

  all_counted : {db : Db S.Value} → Reached S db → AreCounted none db.tables
  all_counted =
      Reached-keeps S (λ db. AreCounted none db.tables)
        (λ ts input seq db db' h c.
          apply-AreCounted _ db.tables (insert_and_fold-IsAppended S ts input db h).folded c)
        (unfold new_db in nothing_counted) (λ name seq db c. unfold set_cursor in c)

  -- In every history the id that `next_bead_id` returns is no bead's: it is read back as the prefix and the
  -- number after its counter, or, where an `i64` does not hold that number, not read at all.
  pub next_bead_id-fresh :
      {db : Db S.Value}
      → Reached S db
      → (prefix id : String) → next_bead_id db.tables prefix ≡ ok id
      → (bead_row db.tables id ≡ none)
        × (parse_bead_id id ≡ next_number (high_of db.tables.counters prefix) prefix)
  unfolding next_bead_id validate_prefix
  next_bead_id-fresh {db} r prefix id h = elim (Bool-cases (is_prefix prefix)) [
    | inr bad ↦ absurd (ground (arith, bad, h))
    | inl valid ↦
        (let is : numbered prefix (high_of db.tables.counters prefix) ≡ id =
            ground (arith, valid, h) in
          let parsed =
            subst (λ i. parse_bead_id i ≡ next_number (high_of db.tables.counters prefix) prefix) is
              (parse_numbered prefix (high_of db.tables.counters prefix) valid) in
          (fresh parsed, parsed))
  ]
    where
      fresh :
          parse_bead_id id ≡ next_number (high_of db.tables.counters prefix) prefix
          → bead_row db.tables id ≡ none
      fresh parsed = elim (Option-cases (bead_row db.tables id)) [
        | inl none' ↦ none'
        | inr (b, row) ↦ absurd (
            counted_not_next db.tables.counters prefix id parsed
              (counted (all_counted r id (ground (arith, row)))))
      ]
        where
          counted :
              (none ≡ some id) ⊎ IsCounted db.tables.counters id → IsCounted db.tables.counters id
          counted (inl x) = absurd (cc)
          counted (inr k) = k
