-- ===== src/Fold/Write/Apply.antt =====
-- An accepted event has executed statements of `Write`, whatever its type.
use mathlib.Core.Path.{subst}
use gascamp.Common.{
  ◌≡◌, refl, String, true, false, not, Option, none, some, is_some, is_none, is_blank, contains,
  arith, find-append, eq_refl, ◌&&◌, ◌∙◌,
}
use gascamp.Error.{
  Result, ok, ◌>>◌, >>=-eq-ok, >>-eq-ok, refuse_if-eq-ok, ok_or, ok_or-eq-ok, missing_rig,
}
use gascamp.Schema.{Tables, bead_key, bead_row, body, stopped, crashed}
use gascamp.Event.{Event, EventType}
use gascamp.Payload.{Serde, BeadCreated}
use gascamp.Ids.{bump_counter, parse_bead_id}
use gascamp.Fold.{handle, apply}
use gascamp.Fold.Guards.{bad, bead_status, required_bead, payload}
use gascamp.Fold.Rows.{new_bead, search_text, insert_bead}
use gascamp.Fold.Beads.{
  bead_types, is_blank_title, no_entries, insert_deps, bead_created, bead_updated,
}
use gascamp.Fold.Metadata.{write_each, update_each}
use gascamp.Fold.Write.{Write, Writes, done, next, Writes-append, created_by}
use gascamp.Fold.Write.Handlers.{
  ok_injective, true_of_not-false, bead_claimed-Writes, bead_closed-Writes, dispatch_failed-Writes,
  dispatch_rearmed-Writes, session_woke-Writes, session_pid-Writes, session_ended-Writes,
  permission_pending-Writes, permission_decided-Writes,
}
use gascamp.Fold.Write.Handlers.Loops.{insert_deps-Writes, write_each-Writes, update_each-Writes}

row_of_status :
    (t : Tables) (id : String) → is_some (bead_status t id) ≡ false → bead_row t id ≡ none
row_of_status t id h = ground arith

known_row :
    (t : Tables) (id : String) → is_none (bead_status t id) ≡ false → is_some (bead_row t id) ≡ true
known_row t id h = ground arith

-- The bead that was just inserted is there.
row-insert_bead :
    (id rig ts : String) (p : BeadCreated) (t : Tables)
    → bead_row t id ≡ none
    → bead_row (insert_bead (new_bead id rig p ts) t) id ≡ some (new_bead id rig p ts)
unfolding insert_bead
row-insert_bead id rig ts p t fresh =
    find-append bead_key id t.beads (new_bead id rig p ts)
    ∙ (rw fresh (unfold new_bead in rw (eq_refl id)))

bump_counter-Writes :
    {V : Type 0} {created : Option String} (id : String) (t : Tables) {s u : Tables}
    → Writes V created s t
    → bump_counter id t ≡ ok u
    → Writes V created s u
unfolding bump_counter
bump_counter-Writes {V} {created} id t {s} ws h =
    let ((prefix, n), parsed, h') = >>=-eq-ok (ok_or (parse_bead_id id) _) _ h in
    subst (λ v. Writes V created s v) (ok_injective h') (next ws (Write.count prefix n))

module _ (S : Serde) (e : Event S.Value) (t : Tables) {u : Tables} where
  bead_created-Writes : bead_created S e t ≡ ok u → Writes S.Value e.bead t u
  unfolding bead_created
  bead_created-Writes h =
      let (id, hid, h₁) = >>=-eq-ok (required_bead e) _ h in
      let (rig, hrig, h₂) = >>=-eq-ok (ok_or e.rig (bad e missing_rig)) _ h₁ in
      let (p, hp, h₃) = >>=-eq-ok (payload e (S.as_bead_created e.payload)) _ h₂ in
      let (typed, h₄) = refuse_if-eq-ok (not (contains bead_types p.bead_type)) _ _ h₃ in
      let (titled, h₅) = refuse_if-eq-ok (is_blank p.title) _ _ h₄ in
      let (fresh, h₆) = refuse_if-eq-ok (is_some (bead_status t id)) _ _ h₅ in
      let row = row_of_status t id fresh in
      let t₀ = insert_bead (new_bead id rig p e.ts) t in
      let there : is_some (bead_row t₀ id) ≡ true = rw (row-insert_bead id rig e.ts p t row) refl in
      let (t₁, deps, h₇) = >>=-eq-ok (insert_deps e id p.needs t₀) _ h₆ in
      let (t₂, metas, h₈) = >>=-eq-ok (write_each e id p.metadata t₁) _ h₇ in
      let ran₁ = insert_deps-Writes e id p.needs t₀ there deps in
      let there₁ : is_some (bead_row t₁ id) ≡ true = rw (ran₁.1) there in
      let ran₂ = write_each-Writes e id p.metadata t₁ there₁ metas in
      let inserted = next done (
        Write.insert_bead id rig e.ts p (ok_or-eq-ok e.bead _ hid) row (true_of_not-false _ typed)
          titled) in
      let all = Writes-append (Writes-append inserted ran₁.0) ran₂.0 in
      bump_counter-Writes id _
        (next all (
          Write.index
            (record { bead_id = id; kind = body; content = search_text p.title p.description })))
        h₈

  bead_updated-Writes :
      {created : Option String} → bead_updated S e t ≡ ok u → Writes S.Value created t u
  unfolding bead_updated
  bead_updated-Writes {created} h =
      let (id, hid, h₁) = >>=-eq-ok (required_bead e) _ h in
      let (p, hp, h₂) = >>=-eq-ok (payload e (S.as_bead_updated e.payload)) _ h₁ in
      let (something, h₃) =
        refuse_if-eq-ok (is_none p.title && is_none p.description && no_entries p.metadata) _ _
          h₂ in
      let (titled, h₄) = refuse_if-eq-ok (is_blank_title p.title) _ _ h₃ in
      let (known, h₅) = refuse_if-eq-ok (is_none (bead_status t id)) _ _ h₄ in
      let (t₁, metas, h₆) = >>=-eq-ok (update_each e id p.metadata t) _ h₅ in
      let ran = update_each-Writes e id p.metadata t (known_row t id known) metas in
      subst (λ v. Writes S.Value created t v) (ok_injective h₆)
        (next (next ran.0 (Write.patch id e.ts p titled)) (Write.reindex id))

-- a handler that reads and passes has executed nothing
passed-Writes :
    {V : Type 0} {created : Option String} (m : Result (Unit {0})) (t : Tables) {u : Tables}
    → (m >> ok t) ≡ ok u
    → Writes V created t u
passed-Writes {V} {created} m t h =
    subst (λ v. Writes V created t v) (ok_injective (>>-eq-ok m (ok t) h)) done

unchanged-Writes :
    {V : Type 0} {created : Option String} (t : Tables) {u : Tables}
    → ok t ≡ ok u
    → Writes V created t u
unchanged-Writes {V} {created} t h = subst (λ v. Writes V created t v) (ok_injective h) done

module _ (S : Serde) where
  pub handle-Writes :
      (k : EventType) (e : Event S.Value) (t : Tables) {u : Tables}
      → handle S k e t ≡ ok u
      → Writes S.Value (created_by k e.bead) t u
  unfolding handle
  handle-Writes EventType.bead_created e t h = bead_created-Writes S e t h
  handle-Writes EventType.bead_claimed e t h = bead_claimed-Writes S e t h
  handle-Writes EventType.bead_updated e t h = bead_updated-Writes S e t h
  handle-Writes EventType.bead_closed e t h = bead_closed-Writes S e t h
  handle-Writes EventType.dispatch_failed e t h = dispatch_failed-Writes S e t h
  handle-Writes EventType.dispatch_rearmed e t h = dispatch_rearmed-Writes S e t h
  handle-Writes EventType.session_woke e t h = session_woke-Writes S e t h
  handle-Writes EventType.session_pid e t h = session_pid-Writes S e t h
  handle-Writes EventType.session_stopped e t h = session_ended-Writes S e t stopped refl h
  handle-Writes EventType.session_crashed e t h = session_ended-Writes S e t crashed refl h
  handle-Writes EventType.permission_pending e t h = permission_pending-Writes S e t h
  handle-Writes EventType.permission_decided e t h = permission_decided-Writes S e t h
  handle-Writes EventType.campd_started e t h = unchanged-Writes t h
  handle-Writes EventType.campd_stopped e t h = unchanged-Writes t h
  handle-Writes EventType.session_stream_capped e t h = unchanged-Writes t h
  handle-Writes EventType.import_added e t h = unchanged-Writes t h
  handle-Writes EventType.import_refused e t h = unchanged-Writes t h
  handle-Writes _ e t h = passed-Writes _ t h

  -- An accepted event runs statements of `Write` from the tables before it to the tables after it,
  -- and inserts no bead but, where it is a `bead.created`, its own.
  pub apply-Writes :
      (e : Event S.Value) (t : Tables) {u : Tables}
      → apply S e t ≡ ok u
      → Writes S.Value (created_by e.kind e.bead) t u
  unfolding apply
  apply-Writes e t h = handle-Writes e.kind e t h
